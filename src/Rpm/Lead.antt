-- ===== src/Rpm/Lead.antt =====
-- The lead and the signature of an RPM package: cli/pack/rpm_lead.go and cli/pack/rpm_signature.go.
use tt.Prelude.{◌-◌, Option, none, some, List, [], ◌∷◌, ◌++◌, ℤ, pos, length, ltb, if◌then◌else◌}
use tt.Rpm.Words.{word8, word16}
use tt.Rpm.{Tag, bin, bytes, zeros}
use tt.Rpm.Reader.{◌>>=◌}
use tt.Rpm.Header.{Bytes, to_int32, text_tag, int32s_tag}

-- The lead; `none` is the panic of a name that is longer than its array.
unfoldable pub gen_rpm_lead : Bytes → Option Bytes
gen_rpm_lead name =
    if ltb 66 (length name)
    then none
    else some (
        (0xed ∷ 0xab ∷ 0xee ∷ 0xdb ∷ [])
        ++ (word8 3
            ++ (word8 0
                ++ (word16 0
                    ++ (word16 1
                        ++ ((name ++ zeros (66 - length name))
                            ++ (word16 1 ++ (word16 5 ++ zeros 16))))))))

-- The digests and sizes of the files that are signed.
unfoldable pub gen_signature : Option Bytes → Option ℤ → Option ℤ → Option Bytes → Option (List Tag)
gen_signature header_sha1 body_size cpio_size body_md5 = do
  sha1 ← header_sha1
  body ← body_size
  cpio ← cpio_size
  md5 ← body_md5
  some (
      text_tag 269 sha1
      ∷ int32s_tag 1000 (to_int32 body ∷ [])
      ∷ int32s_tag 1007 (to_int32 cpio ∷ [])
      ∷ record { id = pos 1004; type = bin; value = bytes md5 }
      ∷ [])

-- ===== src/Examples/Images.antt =====
-- A signed PE image.
use aas_sign.Base.{
  ℕ, zero, suc, ◌+◌, ◌/◌, ◌%◌, ◌≡◌, ◌≢◌, refl, true, List, [], ◌∷◌, ◌++◌, length, ok, stuck,
  bytes_eq,
}
use aas_sign.Cms.Signers.{cms_has_signer}
use aas_sign.Cms.Extract.{signed_data, skip_signed_data_header, signed_data_tail}
use aas_sign.Cms.Fields.{take_field, require_oid, skip_optional}
use aas_sign.Cms.Oids.{oid_signed_data}
use aas_sign.Der.{der_wrap, write_length}
use aas_sign.Der.Oid.{der_oid}
use aas_sign.X509.{der_read_tlv}
use aas_sign.Pe.{read_at, pe_has_signature}
use aas_sign.Pe.Laws.{HoldsSigner, pe_has_signature-ne-stuck, pe_has_signature-HoldsSigner}

-- One signer, no certificates and no attributes.
abbrev pub cms : List ℕ
cms =
    48 ∷ 123 ∷ 6 ∷ 9 ∷ 42 ∷ 134 ∷ 72 ∷ 134 ∷ 247 ∷ 13 ∷ 1 ∷ 7 ∷ 2 ∷ 160 ∷ 110 ∷ 48 ∷ 108 ∷ 2 ∷ 1 ∷ 1
    ∷ 49 ∷ 15 ∷ 48 ∷ 13 ∷ 6 ∷ 9 ∷ 96 ∷ 134 ∷ 72 ∷ 1 ∷ 101 ∷ 3 ∷ 4 ∷ 2 ∷ 1 ∷ 5 ∷ 0 ∷ 48 ∷ 36 ∷ 6 ∷ 10
    ∷ 43 ∷ 6 ∷ 1 ∷ 4 ∷ 1 ∷ 130 ∷ 55 ∷ 2 ∷ 1 ∷ 4 ∷ 160 ∷ 22 ∷ 48 ∷ 20 ∷ 48 ∷ 0 ∷ 48 ∷ 16 ∷ 48 ∷ 11
    ∷ 6 ∷ 9 ∷ 96 ∷ 134 ∷ 72 ∷ 1 ∷ 101 ∷ 3 ∷ 4 ∷ 2 ∷ 1 ∷ 4 ∷ 1 ∷ 170 ∷ 49 ∷ 48 ∷ 48 ∷ 46 ∷ 2 ∷ 1 ∷ 1
    ∷ 48 ∷ 7 ∷ 48 ∷ 2 ∷ 49 ∷ 0 ∷ 2 ∷ 1 ∷ 5 ∷ 48 ∷ 13 ∷ 6 ∷ 9 ∷ 96 ∷ 134 ∷ 72 ∷ 1 ∷ 101 ∷ 3 ∷ 4 ∷ 2
    ∷ 1 ∷ 5 ∷ 0 ∷ 48 ∷ 13 ∷ 6 ∷ 9 ∷ 42 ∷ 134 ∷ 72 ∷ 134 ∷ 247 ∷ 13 ∷ 1 ∷ 1 ∷ 1 ∷ 5 ∷ 0 ∷ 4 ∷ 2 ∷ 1
    ∷ 2 ∷ []

abbrev filler : ℕ → List ℕ
filler zero = []
filler (suc k) = 0 ∷ filler k

abbrev le4 : ℕ → List ℕ
le4 n = n % 256 ∷ n / 256 ∷ 0 ∷ 0 ∷ []

abbrev entry : List ℕ
entry = le4 (length cms + 8) ++ (0 ∷ 2 ∷ 2 ∷ 0 ∷ cms)

-- Headers of 224 bytes, with the data directories at 184, and one entry.
abbrev image : List ℕ
image =
    77
    ∷ 90
    ∷ (filler 58
        ++ (le4 64
            ++ (80
                ∷ 69
                ∷ 0
                ∷ 0
                ∷ (filler 16
                    ++ (136
                        ∷ 0
                        ∷ 0
                        ∷ 0
                        ∷ 0x0b
                        ∷ 1
                        ∷ (filler 90
                            ++ (le4 5
                                ++ (filler 32 ++ (le4 224 ++ (le4 (length entry) ++ entry))))))))))

signed : pe_has_signature image ≡ ok true
unfolding pe_has_signature cms_has_signer read_at bytes_eq der_read_tlv signed_data take_field
    oid_signed_data der_oid require_oid der_wrap write_length skip_signed_data_header
    signed_data_tail skip_optional
signed = refl

pe_has_signature-ne-stuck_example : pe_has_signature image ≢ stuck
pe_has_signature-ne-stuck_example = pe_has_signature-ne-stuck image

pe_has_signature-HoldsSigner_example : HoldsSigner image
pe_has_signature-HoldsSigner_example = pe_has_signature-HoldsSigner image signed

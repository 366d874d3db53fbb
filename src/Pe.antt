-- ===== src/Pe.antt =====
-- `pe_has_signature` of src/signing.cpp: the certificate table of a PE image. A file is its bytes,
-- and `read_at` throws where the file ends before the buffer is full.
pub mod Laws
use aas_sign.Base.{
  ℕ, zero, suc, ◌+◌, ◌-◌, ◌*◌, ◌/◌, ◌%◌, bit_or, ltb, ◌==◌, Bool, true, false, not, ◌&&◌, ◌||◌,
  List, [], ◌∷◌, length, take, drop, Result, ok, err, stuck, ◌>>=◌, ◌>>◌, guard, codes, bytes_eq,
  if◌then◌else◌,
}
use aas_sign.Base.Bits.{shl}
use aas_sign.X509.{TlvView, der_read_tlv}
use aas_sign.Cms.Signers.{cms_has_signer}

abbrev pub max_cms : ℕ
max_cms = 16 * 1024 * 1024

unfoldable pub read_at : List ℕ → ℕ → ℕ → Result (List ℕ)
read_at file offset n = do
  guard (not (ltb (length file) (offset + n))) "unexpected end of file"
  ok (take n (drop offset file))

-- Buffers are longer than what is read of them.
le16 : List ℕ → ℕ
le16 (a ∷ b ∷ _) = bit_or a (shl b 8)
le16 _ = 0

le32 : List ℕ → ℕ
le32 (a ∷ b ∷ c ∷ d ∷ _) = bit_or (bit_or (bit_or a (shl b 8)) (shl c 16)) (shl d 24)
le32 _ = 0

abbrev zeros : List ℕ → Bool
zeros [] = true
zeros (b ∷ bs) = b == 0 && zeros bs

-- The bytes to the next entry; the last one need not be padded.
unfoldable pub entry_step : ℕ → ℕ → Result ℕ
entry_step n len =
    let aligned = (n + 7) / 8 * 8 in
    if ltb len aligned then guard (n == len) "invalid certificate alignment" >> ok n else ok aligned

-- A PKCS#7 with a signer, and nothing behind it but zeros.
unfoldable pub check_pkcs7 : List ℕ → Result (Unit {0})
check_pkcs7 pkcs7 = do
  der ← der_read_tlv pkcs7
  guard (zeros (drop der.total_len pkcs7)) "invalid PE signature padding"
  signer ← cms_has_signer (take der.total_len pkcs7)
  guard signer "PE signature contains no signer"

-- The length, revision and type of an entry with n bytes.
unfoldable pub is_valid_entry : ℕ → ℕ → List ℕ → Bool
unfolding le16
is_valid_entry len n cert = not (
    ltb n 8
    || (ltb len n
        || (ltb max_cms n || (not (le16 (drop 4 cert) == 0x200) || not (le16 (drop 6 cert) == 2)))))

-- One WIN_CERTIFICATE.
unfoldable pub check_entry : List ℕ → ℕ → ℕ → Result ℕ
unfolding entry_step check_pkcs7 is_valid_entry le32
check_entry file offset len = do
  guard (not (ltb len 8)) "truncated WIN_CERTIFICATE"
  cert ← read_at file offset 8
  guard (is_valid_entry len (le32 cert) cert) "malformed PE Authenticode signature"
  pkcs7 ← read_at file (offset + 8) (le32 cert - 8)
  check_pkcs7 pkcs7
  entry_step (le32 cert) len

-- while (length)
unfoldable pub check_entries : ℕ → List ℕ → ℕ → ℕ → Bool → Result Bool
unfolding check_entry
check_entries fuel file offset zero found = ok found
check_entries zero file offset (suc len) found = stuck
check_entries (suc fuel) file offset (suc len) found = do
  aligned ← check_entry file offset (suc len)
  check_entries fuel file (offset + aligned) (suc len - aligned) true

-- The table that the fifth data directory names.
unfoldable pub check_table : List ℕ → ℕ → ℕ → ℕ → Result Bool
unfolding check_entries
check_table file headers_end offset len =
    let entries = check_entries len file offset len false in
    if offset == 0 && len == 0 then ok false else (do
      guard
          (not (
            offset == 0
            || (len == 0
                || (not (offset % 8 == 0)
                    || (ltb offset headers_end
                        || (ltb (length file) offset || ltb (length file - offset) len))))))
          "invalid PE certificate table"
      entries)

abbrev directories : ℕ → ℕ
directories format = if format == 0x10b then 96 else if format == 0x20b then 112 else 0

-- The fifth data directory, where the image counts as many.
unfoldable pub check_directory : List ℕ → ℕ → ℕ → ℕ → Result Bool
unfolding check_table le32
check_directory file pe opt_len dirs = do
  guard (not (ltb opt_len (dirs + 40))) "truncated PE data directory"
  entry ← read_at file (pe + 24 + dirs + 32) 8
  check_table file (pe + 24 + opt_len) (le32 entry) (le32 (drop 4 entry))

-- Behind the header: `dirs` is where the data directories are.
unfoldable pub check_directories : List ℕ → ℕ → ℕ → ℕ → Result Bool
unfolding check_directory le32
check_directories file pe opt_len dirs = do
  guard (not (dirs == 0 || ltb opt_len dirs)) "invalid PE optional header"
  count ← read_at file (pe + 24 + dirs - 4) 4
  (if ltb 4 (le32 count) then check_directory file pe opt_len dirs else ok false)

unfoldable pub pe_has_signature : List ℕ → Result Bool
unfolding check_directories le16 le32
pe_has_signature file = do
  dos ← read_at file 0 64
  guard (bytes_eq (take 2 dos) (codes "MZ")) "not a PE image"
  let pe = le32 (drop 60 dos)
  header ← read_at file pe 26
  guard (bytes_eq (take 4 header) (80 ∷ 69 ∷ 0 ∷ 0 ∷ [])) "invalid PE header"
  check_directories file pe (le16 (drop 20 header)) (directories (le16 (drop 24 header)))

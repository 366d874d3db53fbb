-- ===== src/Msi/Restore.antt =====
-- `preserve_cabinet_metadata` of src/msi_recursive.cpp, on the bytes of the rebuilt cabinet.
-- `payload_size` is the size of the file at a path. What an error leaves in the cabinet is left out.
use aas_sign.Base.{
  ℕ, zero, suc, ◌+◌, ◌-◌, ltb, ◌==◌, not, ◌&&◌, ◌||◌, List, [], ◌∷◌, ◌++◌, length, take, drop,
  Result, ok, err, ◌>>=◌, ◌>>◌, guard, Text, codes, bytes_eq, if◌then◌else◌,
}
use aas_sign.Base.Bits.{shr, byte}
use aas_sign.Pe.{read_at}
use aas_sign.Msi.{u16, u32, CabinetMember}
use aas_sign.Msi.Folders.{at}

-- platform::File::write_at inside the file
unfoldable pub write_at : List ℕ → ℕ → List ℕ → List ℕ
write_at file offset bytes = take offset file ++ (bytes ++ drop (offset + length bytes) file)

unfoldable pub metadata_bytes : CabinetMember → List ℕ
metadata_bytes m =
    byte m.date
    ∷ byte (shr m.date 8)
    ∷ byte m.time
    ∷ byte (shr m.time 8)
    ∷ byte m.attributes
    ∷ byte (shr m.attributes 8)
    ∷ []

-- A name and the position behind its final zero, after at most `allowance` characters.
unfoldable pub read_rebuilt_name : List ℕ → ℕ → ℕ → Result (Text × ℕ)
read_rebuilt_name file zero cursor = err "invalid rebuilt cabinet name"
read_rebuilt_name file (suc allowance) cursor = do
  guard (ltb cursor (length file)) "invalid rebuilt cabinet name"
  ch ← read_at file cursor 1
  (if at ch 0 == 0
      then ok ([], cursor + 1)
      else (do rest ← read_rebuilt_name file allowance (cursor + 1); ok (at ch 0 ∷ rest.0, rest.1)))

module _ (payload_size : Text → Result ℕ) where
  -- The record at the cursor is the member's: the position behind it.
  unfoldable pub check_record : List ℕ → ℕ → CabinetMember → Result ℕ
  unfolding u32 read_rebuilt_name
  check_record file cursor m = do
    guard (not (ltb (length file) cursor || ltb (length file - cursor) 17))
        "truncated rebuilt cabinet file record"
    f ← read_at file cursor 16
    size ← payload_size m.path
    guard (u32 f == size) "rebuilt cabinet member size mismatch"
    named ← read_rebuilt_name file 256 (cursor + 16)
    guard (bytes_eq named.0 m.name) "rebuilt cabinet member order mismatch"
    ok named.1

  unfoldable pub restore_members : List CabinetMember → ℕ → List ℕ → Result (List ℕ)
  unfolding check_record write_at metadata_bytes
  restore_members [] cursor file = ok file
  restore_members (m ∷ members) cursor file = do
    next ← check_record file cursor m
    restore_members members next (write_at file (cursor + 10) (metadata_bytes m))

  unfoldable pub restore_metadata : List CabinetMember → List ℕ → Result (List ℕ)
  unfolding restore_members u16
  restore_metadata members file = do
    guard (not (ltb (length file) 36)) "truncated rebuilt cabinet"
    h ← read_at file 0 36
    guard (bytes_eq (take 4 h) (codes "MSCF") && u16 (drop 28 h) == length members)
        "rebuilt cabinet member count mismatch"
    restore_members members (u32 (drop 16 h)) file

-- ===== src/Msi/Preserved.antt =====
-- What a rebuilt cabinet shows of its members after `preserve_cabinet_metadata` of
-- src/msi_recursive.cpp.
use aas_sign.Base.{
  ℕ, ◌+◌, ◌^◌, ◌<◌, ltb, ◌==◌, bit_or, ◌≡◌, ap, ◌∙◌, not, ◌&&◌, arith, List, [], ◌∷◌, length, All,
  take, drop, Result, ok, guard-eq-ok, >>=-eq-ok, Text, codes, bytes_eq,
}
use aas_sign.Base.Bits.{shr, shl, byte, bit_or_disjoint, bit_or_comm}
use aas_sign.Pe.{read_at}
use aas_sign.Msi.{u16, u32, CabinetMember}
use aas_sign.Msi.Restore.{metadata_bytes, read_rebuilt_name, restore_metadata}
use aas_sign.Msi.Restored.{HasRecord, HasRecords, restore_members-lem}

-- uint16_t fields
pub record HasWords (m : CabinetMember) : Type 0 where
  pub date : m.date < 2 ^ 16
  pub time : m.time < 2 ^ 16
  pub attributes : m.attributes < 2 ^ 16

-- The record at the cursor, up to where the next one begins, as a reader of cabinets takes it.
pub record Shows (payload_size : Text → Result ℕ) (file : List ℕ) (cursor : ℕ) (m : CabinetMember)
    (next : ℕ) : Type 0 where
  pub size : payload_size m.path ≡ ok (u32 (take 4 (drop cursor file)))
  pub date : u16 (take 6 (drop (cursor + 10) file)) ≡ m.date
  pub time : u16 (drop 2 (take 6 (drop (cursor + 10) file))) ≡ m.time
  pub attributes : u16 (drop 4 (take 6 (drop (cursor + 10) file))) ≡ m.attributes
  pub name : read_rebuilt_name file 256 (cursor + 16) ≡ ok (m.name, next)

abbrev pub ShowsAll : (Text → Result ℕ) → List ℕ → ℕ → List CabinetMember → Type 0
ShowsAll payload_size file cursor [] = Unit
ShowsAll payload_size file cursor (m ∷ members) =
    (next : ℕ) × Shows payload_size file cursor m next × ShowsAll payload_size file next members

word_bytes : (x : ℕ) → x < 2 ^ 16 → bit_or (byte x) (shl (byte (shr x 8)) 8) ≡ x
word_bytes x h = omega (
  arith,
  bit_or_comm (byte x) (shl (byte (shr x 8)) 8),
  bit_or_disjoint 8 (byte (shr x 8)) (byte x) (omega arith),
)

HasRecord-Shows :
    (payload_size : Text → Result ℕ) (file : List ℕ) (cursor next : ℕ) (m : CabinetMember)
    → HasWords m
    → HasRecord payload_size file cursor m next
    → Shows payload_size file cursor m next
unfolding metadata_bytes u16
HasRecord-Shows payload_size file cursor next m words k = record {
  size = k.size;
  date = ap u16 k.metadata ∙ word_bytes m.date words.date;
  time = ap (λ f. u16 (drop 2 f)) k.metadata ∙ word_bytes m.time words.time;
  attributes = ap (λ f. u16 (drop 4 f)) k.metadata ∙ word_bytes m.attributes words.attributes;
  name = k.name;
}

HasRecords-ShowsAll :
    (payload_size : Text → Result ℕ) (file : List ℕ) (cursor : ℕ) (members : List CabinetMember)
    → All HasWords members
    → HasRecords payload_size file cursor members
    → ShowsAll payload_size file cursor members
HasRecords-ShowsAll payload_size file cursor [] w h = tt
HasRecords-ShowsAll payload_size file cursor (m ∷ members) (w, ws) (next, k, h) = (
  next,
  HasRecord-Shows payload_size file cursor next m w k,
  HasRecords-ShowsAll payload_size file next members ws h,
)

-- A rebuilt cabinet that is let through is as long as it was, and a reader of its file table, from
-- where its header put it, finds one record behind another for the members in their order, each with
-- the member's name, the size of the member's payload, and the date, time and attributes that the
-- member had before the cabinet was rebuilt, when these are 16-bit numbers.
pub restore_metadata-ShowsAll :
    (payload_size : Text → Result ℕ) (members : List CabinetMember) (file file' : List ℕ)
    → All HasWords members
    → restore_metadata payload_size members file ≡ ok file'
    → (length file ≡ length file')
      × ((h : List ℕ) × (read_at file 0 36 ≡ ok h)
          × ShowsAll payload_size file' (u32 (drop 16 h)) members)
unfolding restore_metadata
restore_metadata-ShowsAll payload_size members file file' words r =
    let (e₁, r₁) = guard-eq-ok (not (ltb (length file) 36)) _ r in
    let (h, e₂, r₂) = >>=-eq-ok (read_at file 0 36) _ r₁ in
    let (e₃, r₃) =
      guard-eq-ok (bytes_eq (take 4 h) (codes "MSCF") && u16 (drop 28 h) == length members) _ r₂ in
    let (same, records) = restore_members-lem payload_size members (u32 (drop 16 h)) file r₃ in
    (same.long, (h, e₂, HasRecords-ShowsAll payload_size file' _ members words records))

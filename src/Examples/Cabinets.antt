-- ===== src/Examples/Cabinets.antt =====
-- A cabinet with one folder and one member.
use aas_sign.Base.{ℕ, ◌≡◌, ◌≢◌, refl, arith, List, [], ◌∷◌, ok, stuck, codes, bytes_eq}
use aas_sign.Pe.{read_at}
use aas_sign.Msi.{u16, u32, safe_name, none_unsafe, to_string, digits}
use aas_sign.Msi.Ranges.{check_ranges, sort_ranges, insert_range}
use aas_sign.Msi.Folders.{read_header, read_reserve, read_blocks, read_folder, read_folders}
use aas_sign.Msi.Cabinet.{
  Layout, Inspection, place, has_name, read_name, read_member, read_members, read_layout,
  check_folders, inspect_cabinet,
}
use aas_sign.Msi.Sound.{IsSound, inspect_cabinet-IsSound}
use aas_sign.Msi.Total.{inspect_cabinet-ne-stuck}

abbrev pub cabinet : List ℕ
cabinet =
    0x4d ∷ 0x53 ∷ 0x43 ∷ 0x46 ∷ 0 ∷ 0 ∷ 0 ∷ 0 ∷ 71 ∷ 0 ∷ 0 ∷ 0 ∷ 0 ∷ 0 ∷ 0 ∷ 0 ∷ 44 ∷ 0 ∷ 0 ∷ 0 ∷ 0
    ∷ 0 ∷ 0 ∷ 0 ∷ 3 ∷ 1 ∷ 1 ∷ 0 ∷ 1 ∷ 0 ∷ 0 ∷ 0 ∷ 0 ∷ 0 ∷ 0 ∷ 0 ∷ 62 ∷ 0 ∷ 0 ∷ 0 ∷ 1 ∷ 0 ∷ 0 ∷ 0 ∷ 1
    ∷ 0 ∷ 0 ∷ 0 ∷ 0 ∷ 0 ∷ 0 ∷ 0 ∷ 0 ∷ 0 ∷ 33 ∷ 90 ∷ 7 ∷ 0 ∷ 32 ∷ 0 ∷ 97 ∷ 0 ∷ 0 ∷ 0 ∷ 0 ∷ 0 ∷ 1 ∷ 0
    ∷ 1 ∷ 0 ∷ 42 ∷ []

abbrev inspection : Inspection
inspection = record {
  members =
      record {
        name = codes "a";
        path = codes "w/payload-9";
        size = 1;
        date = 23073;
        time = 7;
        attributes = 32;
      }
      ∷ [];
  total = 6;
  count = 10;
}

inspected : inspect_cabinet cabinet (codes "w") 5 9 ≡ ok inspection
unfolding inspect_cabinet read_layout read_header read_reserve read_folders read_folder read_blocks
    read_members read_member read_name place has_name check_folders check_ranges sort_ranges
    insert_range read_at u16 u32 safe_name none_unsafe to_string digits bytes_eq
inspected = refl

inspect_cabinet-IsSound_example :
    (layout : Layout) × (read_layout cabinet (codes "w") 9 ≡ ok layout)
    × IsSound cabinet 5 9 layout inspection
inspect_cabinet-IsSound_example =
    inspect_cabinet-IsSound cabinet (codes "w") 5 9 inspection (omega arith) (omega arith) inspected

inspect_cabinet-ne-stuck_example : inspect_cabinet cabinet (codes "w") 5 9 ≢ stuck
inspect_cabinet-ne-stuck_example = inspect_cabinet-ne-stuck cabinet (codes "w") 5 9

-- ===== src/Msi/Folders.antt =====
-- The header and the folders of a cabinet, in `inspect_cabinet` of src/msi_recursive.cpp.
use aas_sign.Base.{
  ℕ, zero, suc, ◌+◌, ◌-◌, ◌*◌, ltb, bit_and, ◌==◌, not, ◌&&◌, ◌||◌, List, [], ◌∷◌, length, take,
  drop, Result, ok, ◌>>=◌, ◌>>◌, guard, codes, bytes_eq, if◌then◌else◌,
}
use aas_sign.Pe.{read_at}
use aas_sign.Msi.{expansion_limit, u16, u32}
use aas_sign.Msi.Ranges.{Range}

-- What the header says: where the folders begin, and what each of them and each block reserves.
pub record Header : Type 0 where
  pub folders : ℕ
  pub files : ℕ
  pub file_table : ℕ
  pub first_folder : ℕ
  pub folder_reserve : ℕ
  pub data_reserve : ℕ

-- The data of a folder, its length when it is expanded, and the members in it.
pub record Folder : Type 0 where
  pub start : ℕ
  pub end : ℕ
  pub expanded : ℕ
  pub files : List Range

abbrev pub at : List ℕ → ℕ → ℕ
at [] i = 0
at (b ∷ bs) zero = b
at (b ∷ bs) (suc i) = at bs i

module _ (file : List ℕ) where
  -- A reserve header adds its own length and the reserves.
  unfoldable pub read_reserve : Header → ℕ → Result Header
  unfolding u16
  read_reserve header flags = if bit_and flags 4 == 0 then ok header else (do
    guard (not (ltb (length file) 40)) "truncated cabinet reserve header"
    r ← read_at file 36 4
    ok (record header {
      first_folder = 40 + u16 r;
      folder_reserve = at r 2;
      data_reserve = at r 3;
    }))

  unfoldable pub read_header : Result Header
  unfolding read_reserve u32
  read_header = do
    guard (not (ltb (length file) 36 || ltb expansion_limit (length file))) "invalid cabinet size"
    h ← read_at file 0 36
    guard (bytes_eq (take 4 h) (codes "MSCF") && u32 (drop 8 h) == length file)
        "invalid cabinet header"
    let flags = u16 (drop 30 h)
    guard (bit_and flags 3 == 0) "spanning cabinets are unsupported"
    guard (bit_and flags 0xfff8 == 0) "unsupported cabinet flags"
    header ←
        read_reserve
          (record {
            folders = u16 (drop 26 h);
            files = u16 (drop 28 h);
            file_table = u32 (drop 16 h);
            first_folder = 36;
            folder_reserve = 0;
            data_reserve = 0;
          })
          flags
    guard
        (not
          (ltb (length file) (header.first_folder + header.folders * (8 + header.folder_reserve))))
        "truncated cabinet folders"
    ok header

  -- The data blocks of a folder, one after the other.
  unfoldable pub read_blocks : ℕ → ℕ → Folder → Result Folder
  unfolding u16
  read_blocks reserve zero folder = ok folder
  read_blocks reserve (suc blocks) folder = do
    guard (not (ltb (length file - folder.end) (8 + reserve))) "truncated cabinet data block"
    block ← read_at file folder.end 8
    let packed = u16 (drop 4 block)
    let unpacked = u16 (drop 6 block)
    guard (not (unpacked == 0 || (ltb 32768 unpacked || packed == 0)))
        "invalid or spanning cabinet data block"
    guard (not (ltb (length file - folder.end) (8 + reserve + packed))) "truncated cabinet data"
    read_blocks reserve blocks (record folder {
      end = folder.end + (8 + reserve + packed);
      expanded = folder.expanded + unpacked;
    })

  unfoldable pub read_folder : Header → ℕ → Result Folder
  unfolding read_blocks u32
  read_folder header position = do
    f ← read_at file position 8
    let compression = bit_and (u16 (drop 6 f)) 15
    guard (compression == 0 || (compression == 1 || compression == 3))
        "unsupported cabinet compression"
    guard (not (ltb (length file) (u32 f))) "cabinet folder lies outside file"
    read_blocks header.data_reserve (u16 (drop 4 f))
        (record { start = u32 f; end = u32 f; expanded = 0; files = [] })

  -- The folders, the position behind them, and the length of their data when it is expanded.
  unfoldable pub read_folders : Header → ℕ → ℕ → ℕ → Result (List Folder × (ℕ × ℕ))
  unfolding read_folder
  read_folders header zero position expanded = ok ([], (position, expanded))
  read_folders header (suc n) position expanded = do
    folder ← read_folder header position
    guard (not (ltb (expansion_limit - expanded) folder.expanded)) "expanded cabinet exceeds 1 GiB"
    rest ←
        read_folders header n (position + (8 + header.folder_reserve)) (expanded + folder.expanded)
    ok (folder ∷ rest.0, rest.1)

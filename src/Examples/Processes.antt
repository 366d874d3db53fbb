-- ===== src/Examples/Processes.antt =====
-- The starting of a companion.
use aas_sign.Base.{
  ℕ, ◌≡◌, refl, ◌<◌, ◌↔◌, Bool, false, List, [], ◌∷◌, ◌++◌, length, All, some, Result, ok, Text,
  codes, is, bytes_eq, leb, ◌&&◌, ◌-◌, if◌then◌else◌,
}
use aas_sign.Web.{before}
use aas_sign.Process.{has_char, Spawn, spawn_request}
use aas_sign.Process.Windows.{quote_argument, command_line, child_environment, finished}
use aas_sign.Process.Quoting.{arguments, gap, AllWide, command_line-arguments}
use aas_sign.Process.Withheld.{In, Public, block, PublicUpper, child_environment-Public}
use aas_sign.Process.Started.{IsFound, spawn_request-IsSpawn}

abbrev same : Text → Result Text
same text = ok text

-- C:\t.exe "a b" \" and an empty argument
abbrev args : List Text
args = codes "a b" ∷ codes "\\\"" ∷ [] ∷ codes "d\\" ∷ []

abbrev line : Text
line = codes "\"C:\\t.exe\" \"a b\" \"\\\\\\\"\" \"\" \"d\\\\\""

quoted : command_line same (codes "C:\\t.exe") args ≡ ok line
unfolding command_line
quoted = refl

command_line-arguments_example :
    (length line < 32767)
    × ((first : Text) × (back : Text) × (ws : List Text) × (quote_argument same (codes "C:\\t.exe")
          ≡ ok first)
        × (line ≡ first ++ back)
        × AllWide same args ws
        × (arguments gap back ≡ ws))
command_line-arguments_example = command_line-arguments same (codes "C:\\t.exe") args line quoted

abbrev environ : List Text
environ =
    codes "PATH=/bin" ∷ codes "GITHUB_TOKEN=x" ∷ codes "AZURE_CLIENT_ID=y" ∷ codes "=C:=z" ∷ []

abbrev to_upper : ℕ → ℕ
to_upper c = if leb b'a' c && leb c b'z' then c - 32 else c

abbrev mixed : List Text
mixed = codes "Path=C:" ∷ codes "gh_token=x" ∷ codes "Azure_Tenant_Id=y" ∷ codes "=C:=z" ∷ []

withheld : child_environment to_upper mixed ≡ codes "Path=C:" ++ 0 ∷ codes "=C:=z" ++ 0 ∷ 0 ∷ []
unfolding child_environment bytes_eq before
withheld = refl

child_environment-Public_example :
    (left : List Text) × (child_environment to_upper mixed ≡ finished (block left))
    × ((e : Text) → In e left ↔ (In e mixed × PublicUpper to_upper e))
child_environment-Public_example = child_environment-Public to_upper mixed

abbrev is_tool : Text → Bool
is_tool path = is path "/usr/bin/t"

abbrev spawned : Spawn
spawned = record {
  resolved = codes "/usr/bin/t";
  argv = codes "/usr/bin/t" ∷ codes "-v" ∷ [];
  environment = codes "PATH=/bin" ∷ codes "=C:=z" ∷ [];
}

spawn :
    spawn_request is_tool same (some (codes "/bin:/usr/bin")) environ (codes "t") (codes "-v" ∷ [])
    ≡ ok spawned
unfolding spawn_request bytes_eq
spawn = refl

spawn_request-IsSpawn_example :
    ((c : Text) × IsFound is_tool same (some (codes "/bin:/usr/bin")) (codes "t") c
      × (ok c ≡ ok (codes "/usr/bin/t")))
    × (spawned.argv ≡ codes "/usr/bin/t" ∷ codes "-v" ∷ [])
    × All (λ a. has_char 0 a ≡ false) (codes "-v" ∷ [])
    × ((e : Text) → In e spawned.environment ↔ (In e environ × Public e))
spawn_request-IsSpawn_example =
    spawn_request-IsSpawn is_tool same (some (codes "/bin:/usr/bin")) environ (codes "t")
      (codes "-v" ∷ []) spawned spawn

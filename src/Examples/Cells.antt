-- ===== src/Examples/Cells.antt =====
-- Numbers and cells at concrete inputs.
use amule_remote_qt.Base.{ℕ, ◌+◌, ◌^◌, ◌≡◌, ◌<◌, ◌≤◌, ◌⊎◌, refl, List, [], ◌∷◌, ◌++◌, arith}
use amule_remote_qt.Ec.Bytes.{text}
use amule_remote_qt.Model.Types.{Server, new_server, SharedFile, new_shared_file}
use amule_remote_qt.Model.Figures.{human_bytes, size_unit, to_double, spacing, round_to}
use amule_remote_qt.Model.Figures.Units.{Fits, human_bytes_unit}
use amule_remote_qt.App.Tables.Cells.{Screen, display_role, user_role, invalid, text_of, number}
use amule_remote_qt.App.Tables.Cells.Servers
use amule_remote_qt.App.Tables.Cells.Servers.{server_data, server_cell}
use amule_remote_qt.App.Tables.Cells.Shared
use amule_remote_qt.App.Tables.Cells.Shared.{shared_data, shared_cell}
use amule_remote_qt.Examples.Samples.{ascii_qt}
use amule_remote_qt.Examples.Desk.{plain_figures}

-- Doubles are 2 apart from 2 ^ 53, and a number between two of them goes to the even one.
rounded_down : to_double (2 ^ 53 + 1) ≡ 2 ^ 53
unfolding to_double spacing round_to
rounded_down = refl

rounded_up : to_double (2 ^ 53 + 3) ≡ 2 ^ 53 + 4
unfolding to_double spacing round_to
rounded_up = refl

human_bytes_unit_example :
    ((5_000 < 1_024)
      × (human_bytes ascii_qt plain_figures 5_000 ≡ ascii_qt.decimal 5_000 ++ text " B"))
    ⊎ ((i : ℕ) × (1 ≤ i)
        × Fits i 5_000
        × (human_bytes ascii_qt plain_figures 5_000
            ≡ plain_figures.quotient 5_000 (1_024 ^ i) 2 ++ b' ' ∷ size_unit i))
human_bytes_unit_example = human_bytes_unit ascii_qt plain_figures 5_000 (omega arith)

abbrev screen : Screen
screen = record { qt = ascii_qt; figures = plain_figures; tr = λ s. s; arg = λ s t. t }

abbrev servers : List Server
servers = record new_server { name = text "b" } ∷ (record new_server { name = text "a" } ∷ [])

abbrev files : List SharedFile
files =
    record new_shared_file { name = text "d" } ∷ (record new_shared_file { name = text "c" } ∷ [])

-- The text of a name has no sort key, and a number is its own.
second_name : server_data screen display_role 1 Servers.name_column servers ≡ text_of (text "a")
unfolding server_data server_cell
second_name = refl

unkeyed_name : server_data screen user_role 1 Servers.name_column servers ≡ invalid
unfolding server_data server_cell
unkeyed_name = refl

keyed_size : shared_data screen user_role 0 Shared.size_column files ≡ number 0
unfolding shared_data shared_cell
keyed_size = refl

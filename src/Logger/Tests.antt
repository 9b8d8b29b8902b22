-- ===== src/Logger/Tests.antt =====
-- Lines of the log at concrete inputs.
use l7_loadbalancer.Base.{◌+◌, ◌*◌, ◌<◌, ◌≡◌, refl, arith, [], ◌∷◌, ◌++◌, none, some}
use l7_loadbalancer.Text.{to_string, digits_from}
use l7_loadbalancer.Text.Strings.{codes}
use l7_loadbalancer.Logger.{
  info, debug, new, level_number, is_enabled, get_level_str, file_name_from, file_name, log_line,
  log,
}
use l7_loadbalancer.Logger.Sampling.{uses, uses_lem}

-- The first logger lets an information line through, with the last part of the path, and no debug line.
logged :
    log new (codes "T") info (codes "src/main.cpp") 42 (codes "main") (codes "up")
    ≡ some (codes "[T] [INFO ] [main.cpp:42 main] up" ++ b'\n' ∷ [])
unfolding log new is_enabled level_number log_line get_level_str file_name file_name_from to_string
    digits_from
logged = refl

left_out : log new (codes "T") debug (codes "a") 1 (codes "f") (codes "m") ≡ none
unfolding log new is_enabled level_number
left_out = refl

uses_lem_example : ((uses 3 7).0 < 3) × ((uses 3 7).1 * 3 + (uses 3 7).0 ≡ 7)
uses_lem_example = uses_lem 3 7 (omega arith)

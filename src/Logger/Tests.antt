-- ===== src/Logger/Tests.antt =====
-- The theorems about diagnostic_logger.cpp at concrete inputs: two archives, one of them free, and a log
-- that is full.
use ctm.Prelude.{
  zero, suc, ◌≡◌, refl, ◌⊎◌, true, false, List, [], ◌∷◌, ◌++◌, codes, none, some, arith, length, ok,
  ◌<◌, ◌≤◌, inl,
}
use ctm.Logger.{
  Config, Logger, low_severity, error, info, waiting, plain, record_rejected, created, write,
}
use ctm.Logger.Rotation.{Archives, Files, Environment, completes, regular, rotate, write_record}
use ctm.Logger.Shift.{Rotated, rotate-Rotated}
use ctm.Logger.Size.{size, write_record-size}
use ctm.Logger.Accounting.{
  Event, writes, announces, works, shuts_down, run, calls, Inv, run-created-Inv, write-keeps,
}

abbrev config : Config
config = record {
  path_empty = false;
  queue_capacity = 1;
  rotation_bytes = 4096;
  rotation_files = 3;
  maximum_record_bytes = 256;
}

abbrev archives : Archives
archives (suc zero) = some (codes "newer")
archives (suc (suc (suc zero))) = some (codes "older")
archives _ = none

abbrev env : Environment
env = record { exists_known = true; size_known = true; renames = λ i. true; output = completes }

rotate-Rotated_example :
    ((rotate config env (codes "log") archives).1 ≡ ok tt)
    × Rotated config (codes "log") archives (rotate config env (codes "log") archives).0
rotate-Rotated_example = rotate-Rotated config env (codes "log") archives (omega arith) (λ i. refl)

abbrev files : Files
files = record { current = regular (codes "log"); archives = archives }

write_record-size_example : size (write_record config env files (codes "line\n")).0.current ≤ 4096
write_record-size_example =
    write_record-size config env files (codes "line\n") (omega arith) refl (inl (omega arith))

abbrev events : List Event
events =
    writes info 5 true (some (codes "a"))
    ∷ writes error 5 true (some (codes "b"))
    ∷ announces
    ∷ works env
    ∷ shuts_down
    ∷ works env
    ∷ works env
    ∷ works env
    ∷ []

run-created-Inv_example : Inv config (calls events) (run (created config waiting, files) events).0
run-created-Inv_example = run-created-Inv config files events refl

abbrev logger : Logger
logger = created config waiting

low_error : low_severity error ≡ false
unfolding low_severity
low_error = refl

write-keeps_example :
    let l' = (write logger error 5 true (some (codes "b"))).0 in
    (l'.queue ≡ [] ++ codes "b" ∷ [])
    ⊎ ((l'.console ≡ [] ++ plain (codes "b") ∷ [])
        ⊎ ((l'.console ≡ [] ++ record_rejected ∷ [])
            × ((256 < length (codes "b")) ⊎ (4096 < length (codes "b")))))
write-keeps_example = write-keeps logger error 5 true (codes "b") refl low_error

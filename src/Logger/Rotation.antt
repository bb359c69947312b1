-- ===== src/Logger/Rotation.antt =====
-- The files of diagnostic_logger.cpp: `rotate_if_needed`, `write_record`, and the worker's step on both
-- states. `archives i` is the file whose name ends in `.i`; that the archives are regular files
-- and that the system answers whether each is there is assumed. What the operating system answers
-- about the log itself is the environment of a step.
use ctm.Prelude.{
  ℕ, zero, suc, ◌-◌, Bool, true, false, not, ◌&&◌, [], ◌++◌, Bytes, Option, none, some, leb, ◌==◌,
  if◌then◌else◌, length, take, add64, Result, ok, err,
}
use ctm.Logger.{
  Config, Error, could_not_inspect, symbolic_link, not_regular, could_not_open, write_failed,
  rotation_failed, Logger, waiting, writing, counting, returned, take_record, end_write,
  config_invalid, created, configuration_invalid, parent_missing,
}

pub data LogFile : Type 0 where
  absent uninspectable symlink other : LogFile
  regular : Bytes → LogFile

abbrev pub Archives : Type 0
Archives = ℕ → Option Bytes

pub record Files : Type 0 where
  pub current : LogFile
  pub archives : Archives

-- How the output stream did: all written and flushed, not opened, or so many bytes written.
pub data Output : Type 0 where
  completes cannot_open : Output
  stops_after : ℕ → Output

pub record Environment : Type 0 where
  -- whether the second query, for the existence of the log, is answered
  pub exists_known : Bool
  pub size_known : Bool
  -- whether the rename to the name that ends in `.i` succeeds
  pub renames : ℕ → Bool
  pub output : Output

unfoldable pub put_archive : ℕ → Option Bytes → Archives → Archives
put_archive i file archives j = if j == i then file else archives j

-- The loop of `rotate_if_needed`, from `index = n + 1` down; whether every rename succeeded.
unfoldable pub shift : (ℕ → Bool) → ℕ → Archives → Archives × Bool
shift renames zero archives = (archives, true)
shift renames (suc k) archives = elim (archives (suc k)) [
  | none ↦ shift renames k archives
  | some older ↦ elim (renames (suc (suc k))) [
    | true ↦
        shift renames k (put_archive (suc k) none (put_archive (suc (suc k)) (some older) archives))
    | false ↦ (put_archive (suc (suc k)) none archives, false)
  ]
]

-- The part of `rotate_if_needed` that moves files.
unfoldable pub rotate : Config → Environment → Bytes → Archives → Files × Result Error (Unit {0})
rotate config env contents archives =
    let (shifted, moved) = shift env.renames (config.rotation_files - 1) archives in
    if not moved
    then (record { current = regular contents; archives = shifted }, err rotation_failed)
    else if env.renames 1
    then (record { current = absent; archives = put_archive 1 (some contents) shifted }, ok tt)
    else (
      record { current = regular contents; archives = put_archive 1 none shifted },
      err rotation_failed,
    )

unfoldable pub rotate_if_needed : Config → Environment → Files → ℕ → Files × Result Error (Unit {0})
rotate_if_needed config env files incoming_bytes = elim files.current [
  | uninspectable ↦ (files, err could_not_inspect)
  | symlink ↦ (files, err not_regular)
  | other ↦ (files, err not_regular)
  | absent ↦ (files, ok tt)
  | regular contents ↦
      if not env.exists_known
      then (files, ok tt)
      else if not env.size_known
      then (files, err could_not_inspect)
      else if leb (length contents) config.rotation_bytes
          && leb incoming_bytes (config.rotation_bytes - length contents)
      then (files, ok tt)
      else rotate config env contents files.archives
]

-- The stream of `write_record`, in append mode.
unfoldable pub output : Output → Bytes → Bytes → LogFile → LogFile × Result Error (Unit {0})
output completes contents text before = (regular (contents ++ text), ok tt)
output cannot_open contents text before = (before, err could_not_open)
output (stops_after n) contents text before = (regular (contents ++ take n text), err write_failed)

-- `write_record` after the rotation.
unfoldable pub append_record : Environment → Files → Bytes → Files × Result Error (Unit {0})
append_record env files text = elim files.current [
  | uninspectable ↦ (files, err could_not_inspect)
  | symlink ↦ (files, err not_regular)
  | other ↦ (files, err not_regular)
  | absent ↦
      let (file, result) = output env.output [] text absent in
      (record files { current = file }, result)
  | regular contents ↦
      let (file, result) = output env.output contents text (regular contents) in
      (record files { current = file }, result)
]

unfoldable pub write_record : Config → Environment → Files → Bytes → Files × Result Error (Unit {0})
write_record config env files text =
    let (files', rotated) = rotate_if_needed config env files (length text) in
    elim rotated [ err e ↦ (files', err e) | ok _ ↦ append_record env files' text ]

-- One step of the worker.
unfoldable pub step_worker : Environment → Logger × Files → Logger × Files
step_worker env (l, files) = elim l.phase [
  | waiting ↦ (take_record l, files)
  | writing text ↦
      let (files', result) = write_record l.config env files text in
      (end_write l text result, files')
  | counting ↦ (record l { phase = waiting; written = add64 l.written 1 }, files)
  | returned ↦ (l, files)
]

-- The constructor.
unfoldable pub create : Config → Bool → LogFile → Result Error Logger
create config parent_exists file =
    if config_invalid config
    then err configuration_invalid
    else if config.path_empty
    then ok (created config returned)
    else elim file [
      | uninspectable ↦ err could_not_inspect
      | symlink ↦ err symbolic_link
      | other ↦ err not_regular
      | absent ↦ if parent_exists then ok (created config waiting) else err parent_missing
      | regular _ ↦ if parent_exists then ok (created config waiting) else err parent_missing
    ]

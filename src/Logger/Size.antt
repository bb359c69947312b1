-- ===== src/Logger/Size.antt =====
-- The bound that diagnostic_logger.cpp keeps on the log's size.
use ctm.Prelude.{
  ℕ, ◌⊎◌, ◌+◌, ◌≤◌, ◌≡◌, true, [], Bytes, arith, length, length-append, length-take, take, ok,
}
use ctm.Logger.{Config}
use ctm.Logger.Rotation.{
  LogFile, regular, Files, Environment, rotate, rotate_if_needed, Output, completes, cannot_open,
  stops_after, output, append_record, write_record,
}

abbrev pub size : LogFile → ℕ
size (regular contents) = length contents
size _ = 0

-- After a rotation that succeeded there is room for the record, and none lets the log grow.
rotate_if_needed-room :
    (config : Config) (env : Environment) (files : Files) (n : ℕ)
    → n ≤ config.rotation_bytes
    → env.exists_known ≡ true
    → let (files', result) = rotate_if_needed config env files n in
      (size files'.current ≤ size files.current)
      × ((result ≡ ok tt) → size files'.current + n ≤ config.rotation_bytes)
unfolding rotate_if_needed rotate
rotate_if_needed-room config env files n fits known = ground arith

output-size :
    (o : Output) (text : Bytes) (limit : ℕ) (contents : Bytes) (before : LogFile)
    → length contents + length text ≤ limit
    → size before ≤ limit
    → size (output o contents text before).0 ≤ limit
unfolding output
output-size completes text limit contents before room small =
    omega (arith, room, length-append contents text)
output-size cannot_open text limit contents before room small = small
output-size (stops_after n) text limit contents before room small =
    omega (arith, room, length-append contents (take n text), length-take n text)

-- What the log holds before the stream is opened.
text_of : LogFile → Bytes
text_of (regular contents) = contents
text_of _ = []

append_record-size :
    (env : Environment) (files : Files) (text : Bytes) (limit : ℕ)
    → size files.current + length text ≤ limit
    → size (append_record env files text).0.current ≤ limit
unfolding append_record text_of
append_record-size env files text limit room =
    ground (arith, room, output-size env.output text limit (text_of files.current) files.current)

-- If the system answers whether the log exists, whatever else it answers, a record that is no longer
-- than the limit leaves the log within the limit, if the log was within it before or if the record
-- was written.
pub write_record-size :
    (config : Config) (env : Environment) (files : Files) (text : Bytes)
    → length text ≤ config.rotation_bytes
    → env.exists_known ≡ true
    → (size files.current ≤ config.rotation_bytes)
      ⊎ ((write_record config env files text).1 ≡ ok tt)
    → size (write_record config env files text).0.current ≤ config.rotation_bytes
unfolding write_record
write_record-size config env files text fits known before = ground (
  arith,
  before,
  rotate_if_needed-room config env files (length text) fits known,
  append_record-size env (rotate_if_needed config env files (length text)).0 text
      config.rotation_bytes,
)

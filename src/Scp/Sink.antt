-- ===== src/Scp/Sink.antt =====
-- The state machine of src/network/scp.rs, over a hash given by its three operations.
use mimic_ssh_honeypot.Prelude.{
  ℕ, ◌-◌, Bool, true, false, Option, none, some, List, [], ◌∷◌, ◌++◌, length, ltb, ◌==◌,
  if◌then◌else◌, Text,
}
use mimic_ssh_honeypot.Prelude.Utf8.{from_utf8_lossy}
use mimic_ssh_honeypot.Scp.{CdLine, parse_cd}

-- `Sha256` of the sha2 crate, and the hexadecimal form of its result.
pub record Hasher : Type 1 where
  pub State : Type 0
  pub start : State
  pub update : State → ℕ → State
  pub finish : State → Text

abbrev pub max_control_line : ℕ
max_control_line = 8192

abbrev pub max_scp_depth : ℕ
max_scp_depth = 32

pub record CompletedFile : Type 0 where
  pub name : Text
  pub rel_dir : Text
  pub mode : ℕ
  pub contents : List ℕ
  pub size : ℕ
  pub payload_sha256 : Text
  pub truncated : Bool

-- `join("/")`
unfoldable pub join_slash : List Text → Text
join_slash [] = []
join_slash (x ∷ []) = x
join_slash (x ∷ y ∷ rest) = x ++ (47 ∷ join_slash (y ∷ rest))

unfoldable pub pop_dir : List Text → List Text
pop_dir [] = []
pop_dir (x ∷ []) = []
pop_dir (x ∷ y ∷ rest) = x ∷ pop_dir (y ∷ rest)

pub record Incoming (H : Hasher) : Type 0 where
  pub name : Text
  pub mode : ℕ
  pub size : ℕ
  pub remaining : ℕ
  pub stored : List ℕ
  pub hasher : H.State
  pub truncated : Bool

pub record ScpSink (H : Hasher) : Type 0 where
  pub target : Text
  pub recursive : Bool
  pub max_bytes : ℕ
  pub dirs : List Text
  pub buf : List ℕ
  pub file : Option (Incoming H)

module _ {H : Hasher} where
  unfoldable pub new : Text → Bool → ℕ → ScpSink H
  new target recursive max_bytes = record {
    target = target;
    recursive = recursive;
    max_bytes = max_bytes;
    dirs = [];
    buf = [];
    file = none;
  }

  unfoldable pub begin_file : ScpSink H → Option CdLine → ScpSink H
  begin_file s none = s
  begin_file s (some (mode, size, name)) = record s {
    file = some (record {
      name = name;
      mode = mode;
      size = size;
      remaining = size;
      stored = [];
      hasher = H.start;
      truncated = false;
    });
  }

  unfoldable pub enter_dir : ScpSink H → Option CdLine → ScpSink H
  enter_dir s none = s
  enter_dir s (some (mode, size, name)) =
      if ltb (length s.dirs) max_scp_depth then record s { dirs = s.dirs ++ (name ∷ []) } else s

  -- The control line, by its first character.
  unfoldable pub control : ScpSink H → Text → ScpSink H
  unfolding begin_file enter_dir
  control s [] = s
  control s (kind ∷ rest) =
      if kind == 67
      then begin_file s (parse_cd (kind ∷ rest))
      else if kind == 68
      then enter_dir s (parse_cd (kind ∷ rest))
      else if kind == 69
      then record s { dirs = pop_dir s.dirs }
      else s

  unfoldable pub handle_control : ScpSink H → List ℕ → ScpSink H
  unfolding control
  handle_control s line = control s (from_utf8_lossy line)

  -- A byte of a file's body.
  unfoldable pub store : ℕ → Incoming H → ℕ → Incoming H
  store max_bytes f b =
      let f' = record f { hasher = H.update f.hasher b; remaining = f.remaining - 1 } in
      if ltb (length f.stored) max_bytes
      then record f' { stored = f.stored ++ (b ∷ []) }
      else record f' { truncated = true }

  -- The file that the byte after the body completes.
  unfoldable pub finished : List Text → Incoming H → CompletedFile
  finished dirs f = record {
    name = f.name;
    rel_dir = join_slash dirs;
    mode = f.mode;
    contents = f.stored;
    size = f.size;
    payload_sha256 = H.finish f.hasher;
    truncated = f.truncated;
  }

  -- A byte outside a file: the state, and whether it is acknowledged.
  unfoldable pub control_byte : ScpSink H → ℕ → ScpSink H × Bool
  unfolding handle_control
  control_byte s b =
      if b == 10
      then (handle_control (record s { buf = [] }) s.buf, true)
      else if b == 13
      then (s, false)
      else if ltb (length s.buf) max_control_line
      then (record s { buf = s.buf ++ (b ∷ []) }, false)
      else (record s { buf = []; file = none; dirs = [] }, false)

  -- One round of the loop of `feed`: the state, the acknowledgements and the completed files.
  unfoldable pub feed_byte : ScpSink H → ℕ → ScpSink H × List ℕ × List CompletedFile
  unfolding control_byte store finished
  feed_byte s b = elim s.file [
    | some f ↦
        if ltb 0 f.remaining
        then (record s { file = some (store s.max_bytes f b) }, [], [])
        else (record s { file = none }, 0 ∷ [], finished s.dirs f ∷ [])
    | none ↦ let (s', acked) = control_byte s b in (s', (if acked then 0 ∷ [] else []), [])
  ]

  unfoldable pub feed : ScpSink H → List ℕ → ScpSink H × List ℕ × List CompletedFile
  unfolding feed_byte
  feed s [] = (s, [], [])
  feed s (b ∷ bytes) =
      let (s1, acks1, files1) = feed_byte s b in
      let (s2, acks2, files2) = feed s1 bytes in (s2, acks1 ++ acks2, files1 ++ files2)

-- ===== src/Scp/Tests.antt =====
-- Runs of the sink, with the bytes themselves in place of a hash, and the theorems at them.
use mimic_ssh_honeypot.Prelude.{ℕ, ◌≡◌, true, some, List, [], ◌∷◌, ◌++◌, refl, codes, All}
use mimic_ssh_honeypot.Prelude.Utf8.{from_utf8_lossy, lead, trim, strip_space, strip_last}
use mimic_ssh_honeypot.Scp.{
  parse_cd, sanitised, drop_controls, flatten_separators, collapse_dots, after_first,
  from_str_radix,
}
use mimic_ssh_honeypot.Scp.Sink.{Hasher, new, feed, join_slash}
use mimic_ssh_honeypot.Scp.Names.{IsSafeName, parse_cd-IsSafeName}
use mimic_ssh_honeypot.Scp.Capture.{Captured, IsSound}
use mimic_ssh_honeypot.Scp.Sound.{feed-Captured}

abbrev all_bytes : Hasher
all_bytes = record {
  State = List ℕ;
  start = [];
  update = λ state b. state ++ (b ∷ []);
  finish = λ state. state;
}

-- "D0755 0 d", "C0644 3 ../x" and a body, with a cap of two bytes.
abbrev upload : List ℕ
upload = codes "D0755 0 d" ++ (10 ∷ (codes "C0644 3 ../x" ++ (10 ∷ (codes "abc" ++ (0 ∷ [])))))

captured :
    (feed {H = all_bytes} (new (codes "/tmp") true 2) upload).2
    ≡ record {
      name = codes "__x";
      rel_dir = codes "d";
      mode = 0o644;
      contents = codes "ab";
      size = 3;
      payload_sha256 = codes "abc";
      truncated = true;
    }
      ∷ []
unfolding new feed from_utf8_lossy lead parse_cd after_first from_str_radix collapse_dots join_slash
    flatten_separators drop_controls trim strip_space strip_last
captured = refl

feed-Captured_example :
    IsSound all_bytes 2 upload (feed {H = all_bytes} (new (codes "/tmp") true 2) upload).0
    × All (Captured all_bytes 2 upload) (feed {H = all_bytes} (new (codes "/tmp") true 2) upload).2
feed-Captured_example = feed-Captured all_bytes (codes "/tmp") true 2 upload

parsed : parse_cd (codes "C0644 3 ../x") ≡ some (0o644, 3, codes "__x")
unfolding parse_cd trim strip_space strip_last from_str_radix after_first sanitised collapse_dots
    flatten_separators drop_controls
parsed = refl

parse_cd-IsSafeName_example : IsSafeName (codes "__x")
parse_cd-IsSafeName_example =
    parse_cd-IsSafeName (codes "C0644 3 ../x") (0o644, 3, codes "__x") parsed

-- A NUL between two dots goes before the dots are looked at.
hidden_dots : sanitised (46 ∷ 0 ∷ 46 ∷ []) ≡ codes "_"
unfolding sanitised drop_controls flatten_separators collapse_dots
hidden_dots = refl

-- ===== src/KeyString/Tests.antt =====
-- The theorems on key names, and names that are read.
use tmux_cvs_archived.Prelude.{ℕ, ◌≡◌, refl, inl, some, codes, arith, List}
use tmux_cvs_archived.KeyString.{lookup_key, lookup_string, keyc_none, keyc_bspace}
use tmux_cvs_archived.KeyString.RoundTrip.{
  Reads, modified, lookup_string-lookup_key, lookup_key_high,
}

lookup_string-lookup_key_example : Reads (modified 0x1005 3)
lookup_string-lookup_key_example =
    lookup_string-lookup_key 0x1005 3 (omega arith) (inl (omega arith, omega arith))

lookup_key_high_example :
    (name : List ℕ) × (lookup_key 200 ≡ some name) × (lookup_string name ≡ keyc_none)
lookup_key_high_example = lookup_key_high 200 (omega arith) (omega arith)

question_mark : lookup_string (codes "^?") ≡ keyc_bspace
unfolding lookup_string
question_mark = refl

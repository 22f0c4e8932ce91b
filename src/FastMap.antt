-- ===== src/FastMap.antt =====
-- fastmap/src/lib.rs: a map from u32 keys to values, kept as a vector of optional values that
-- starts at the key `base`. The iterators over values and the mutable ones differ from `iter` only
-- in what they lend.
pub mod Lookup
pub mod Invariant
mod Tests
use locasta.Base.{
  ℕ, suc, ◌+◌, ◌-◌, ◌%◌, ◌^◌, Bool, true, false, Option, none, some, List, [], ◌∷◌, ◌++◌, ltb, leb,
  ◌==◌, ◌||◌, if◌then◌else◌, is_some, and_then, length, get_elem?, get_or, set, replicate, resize,
}

pub record FastMap {ℓ} (V : Type ℓ) : Type ℓ where
  pub entries : List (Option V)
  pub base : ℕ
  pub len : ℕ

module _ {ℓ} {V : Type ℓ} where
  -- `Vec::is_empty`
  abbrev pub is_nil : List (Option V) → Bool
  is_nil [] = true
  is_nil (x ∷ xs) = false

  pub new : FastMap V
  new = record { entries = []; base = 0; len = 0 }

  -- `entries[offset]`, which the callers keep in range
  abbrev pub entry_at : List (Option V) → ℕ → Option V
  entry_at xs i = get_or xs i none

  -- The first insertion sets the base.
  insert_first : ℕ → V → FastMap V
  insert_first key value = record { entries = some value ∷ []; base = key; len = 1 }

  -- A key before the base expands the front.
  insert_front : FastMap V → ℕ → V → FastMap V
  insert_front m key value = record {
    entries = set (replicate (m.base - key) none ++ m.entries) 0 (some value);
    base = key;
    len = m.len + 1;
  }

  -- A position beyond the end expands the back.
  pub grow_to : List (Option V) → ℕ → List (Option V)
  grow_to xs offset = if leb (length xs) offset then resize xs (offset + 1) none else xs

  insert_at : FastMap V → ℕ → V → FastMap V
  insert_at m offset value =
      let grown = grow_to m.entries offset in
      record m {
        entries = set grown offset (some value);
        len = if is_some (entry_at grown offset) then m.len else m.len + 1;
      }

  -- The new map, and the value that was replaced.
  pub insert : FastMap V → ℕ → V → FastMap V × Option V
  insert m key value =
      if is_nil m.entries
      then (insert_first key value, none)
      else if ltb key m.base
      then (insert_front m key value, none)
      else let offset = key - m.base in
        (insert_at m offset value, entry_at (grow_to m.entries offset) offset)

  -- `get`, and `get_mut` as far as what it finds
  pub get : FastMap V → ℕ → Option V
  get m key =
      if is_nil m.entries || ltb key m.base
      then none
      else and_then (get_elem? m.entries (key - m.base)) (λ v. v)

  pub remove : FastMap V → ℕ → FastMap V × Option V
  remove m key =
      if is_nil m.entries || ltb key m.base
      then (m, none)
      else let offset = key - m.base in
        if leb (length m.entries) offset
        then (m, none)
        else let old = entry_at m.entries offset in
          (
            record m {
              entries = set m.entries offset none;
              len = if is_some old then m.len - 1 else m.len;
            },
            old,
          )

  pub contains_key : FastMap V → ℕ → Bool
  contains_key m key = is_some (get m key)

  pub is_empty : FastMap V → Bool
  is_empty m = m.len == 0

  -- `entries.iter().enumerate().filter_map(…)` from position `i` on
  iter_from : ℕ → ℕ → List (Option V) → List (ℕ × V)
  iter_from base i [] = []
  iter_from base i (none ∷ es) = iter_from base (suc i) es
  iter_from base i (some v ∷ es) = ((base + i) % 2 ^ 32, v) ∷ iter_from base (suc i) es

  pub iter : FastMap V → List (ℕ × V)
  unfolding iter_from
  iter m = iter_from m.base 0 m.entries

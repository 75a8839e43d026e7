-- ===== src/Storage/Ring.antt =====
-- include/ironpulse/storage/ring_buffer.hpp: the circular buffer of the latest samples of a series.
-- The lock makes each call atomic, so a call is a function of the state.
pub mod Window
pub mod Refine
mod Examples
use ironpulse.Prelude.{
  ℕ, zero, suc, ◌+◌, ◌-◌, ◌%◌, ◌^◌, min, ◌==◌, ltb, if◌then◌else◌, List, [], ◌∷◌, Option, none,
  some, get_elem?, get_or, set, replicate,
}

-- `size_t` is 64 bits wide.
abbrev pub word : ℕ
word = 2 ^ 64

-- A slot holds a whole `Sample<T>`.
pub record Ring {ℓ} (A : Type ℓ) : Type ℓ where
  pub capacity : ℕ
  pub slots : List A
  pub write_index : ℕ
  pub size : ℕ

module _ {ℓ} {A : Type ℓ} where
  -- The vector starts with `capacity` value-initialised samples, `blank` here.
  unfoldable pub make : A → ℕ → Ring A
  make blank capacity = record {
    capacity = capacity;
    slots = replicate capacity blank;
    write_index = 0;
    size = 0;
  }

  unfoldable pub push : Ring A → A → Ring A
  push r sample = record r {
    slots = set r.slots r.write_index sample;
    write_index = ((r.write_index + 1) % word) % r.capacity;
    size = if ltb r.size r.capacity then r.size + 1 else r.size;
  }

  unfoldable pub latest : Ring A → Option A
  latest r =
      if r.size == 0
      then none
      else get_elem? r.slots ((r.write_index + r.capacity + (word - 1)) % word % r.capacity)

  -- The index that round `i` of the loop in `recent` reads.
  unfoldable pub read_index : Ring A → ℕ → ℕ → ℕ
  read_index r count i = (r.write_index + r.capacity + (word - count) + i) % word % r.capacity

  -- `for (i = 0; i < count; ++i)`, with the rounds that are left. The default is never read where
  -- the vector has `capacity` elements.
  unfoldable pub recent_from : A → Ring A → ℕ → ℕ → ℕ → List A
  recent_from blank r count zero i = []
  recent_from blank r count (suc left) i =
      get_or r.slots (read_index r count i) blank ∷ recent_from blank r count left (i + 1)

  unfoldable pub recent : A → Ring A → ℕ → List A
  unfolding recent_from read_index
  recent blank r count = recent_from blank r (min count r.size) (min count r.size) 0

-- ===== src/Stm/Structures.antt =====
-- `TQueue`, `TMap` and `TSemaphore`: one cell each. `read_txn` is `read_stm`, whose outcome is
-- always `done`, and `set_txn` is `write_stm`.
use effect_rs.Prelude.{
  ℕ, ◌+◌, ◌-◌, ◌%◌, ◌^◌, Bool, true, false, Option, none, some, List, [], ◌∷◌, ◌++◌, leb, ◌==◌,
  length, ite, if◌then◌else◌,
}
use effect_rs.Stm.Program.{Stm, succeed, retry_now, flat_map, map}
use effect_rs.Stm.Cell.{read_stm, write_stm}

pub record QueueState (A : Type 0) : Type 0 where
  pub buf : List A
  pub cap : Option ℕ

abbrev pub is_full : {A : Type 0} → Option ℕ → List A → Bool
is_full none buf = false
is_full (some cap) buf = leb cap (length buf)

module _ {A E : Type 0} where
  unfoldable pub offer : ℕ → A → Stm (QueueState A) Bool E
  offer q value = flat_map (read_stm q) (λ st.
      if is_full st.cap st.buf
      then succeed false
      else map (write_stm q (record st { buf = st.buf ++ value ∷ [] })) (λ _. true))

  unfoldable pub take_front : ℕ → QueueState A → List A → Stm (QueueState A) A E
  take_front q st [] = retry_now
  take_front q st (x ∷ rest) = map (write_stm q (record st { buf = rest })) (λ _. x)

  unfoldable pub take : ℕ → Stm (QueueState A) A E
  unfolding take_front
  take q = flat_map (read_stm q) (λ st. take_front q st st.buf)

-- A `HashMap` is a partial function of its keys.
abbrev pub HashMap : Type 0 → Type 0 → Type 0
HashMap K V = K → Option V

module _ {K V : Type 0} (same_key : Discrete K) where
  unfoldable pub insert : HashMap K V → K → V → HashMap K V
  insert m key value j = ite (same_key key j) (some value) (m j)

  unfoldable pub remove : HashMap K V → K → HashMap K V
  remove m key j = ite (same_key key j) none (m j)

module _ {K V E : Type 0} (same_key : Discrete K) where
  unfoldable pub map_get : ℕ → K → Stm (HashMap K V) (Option V) E
  map_get m key = flat_map (read_stm m) (λ map. succeed (map key))

  unfoldable pub map_set : ℕ → K → V → Stm (HashMap K V) Unit E
  unfolding insert
  map_set m key value = flat_map (read_stm m) (λ map. write_stm m (insert same_key map key value))

  unfoldable pub map_delete : ℕ → K → Stm (HashMap K V) Unit E
  unfolding remove
  map_delete m key = flat_map (read_stm m) (λ map. write_stm m (remove same_key map key))

abbrev pub usize_mod : ℕ
usize_mod = 2 ^ 64

module _ {E : Type 0} where
  unfoldable pub acquire : ℕ → Stm ℕ Unit E
  acquire s = flat_map (read_stm s) (λ n. if n == 0 then retry_now else write_stm s (n - 1))

  -- The sum wraps, as in a release build.
  unfoldable pub release : ℕ → Stm ℕ Unit E
  release s = flat_map (read_stm s) (λ n. write_stm s ((n + 1) % usize_mod))

-- ===== src/Stm/Built.antt =====
-- The programs that a client can build: `Txn` has no public operation, so a program is made of the
-- operations of cells by the combinators.
use effect_rs.Prelude.{ℕ, ◌<◌, ◌≡◌, Bool, some, ok, suc}
use effect_rs.Stm.Heap.{Heap, World, version_mod, pending, quiet}
use effect_rs.Stm.Txn
use effect_rs.Stm.Program.{Stm, succeed, fail_with, retry_now, or_else, flat_map, map, check}
use effect_rs.Stm.Cell.{read_stm, write_stm, update_stm, modify_stm}
use effect_rs.Stm.Replays.{
  Replays, Replays-succeed, Replays-fail_with, Replays-retry_now, Replays-or_else, Replays-flat_map,
  Replays-map, Replays-check,
}
use effect_rs.Stm.CellReplays.{
  Replays-read_stm, Replays-write_stm, Replays-update_stm, Replays-modify_stm,
}
use effect_rs.Stm.Commit.{commit}
use effect_rs.Stm.Serial.{SerialAt, serial_of_Replays}
use effect_rs.Stm.Alone.{alone_result, alone_of_Replays}

pub data Built {ℓ} {V E : Type ℓ} : (A : Type ℓ) → Stm V A E → Type (ℓ + 1) where
  succeeding : {A : Type ℓ} (a : A) → Built A (succeed a)
  failing : {A : Type ℓ} (e : E) → Built A (fail_with e)
  retrying : {A : Type ℓ} → Built A retry_now
  checking : (cond : Bool) → Built Unit (check cond)
  reading : (r : ℕ) → Built V (read_stm r)
  writing : (r : ℕ) (v : V) → Built Unit (write_stm r v)
  updating : (r : ℕ) (f : V → V) → Built Unit (update_stm r f)
  modifying : {B : Type ℓ} (r : ℕ) (f : V → B × V) → Built B (modify_stm r f)
  mapping : {A B : Type ℓ} {p : Stm V A E} (f : A → B) → Built A p → Built B (map p f)
  binding :
      {A B : Type ℓ} {p : Stm V A E} {f : A → Stm V B E}
      → Built A p
      → ((a : A) → Built B (f a))
      → Built B (flat_map p f)
  choosing : {A : Type ℓ} {p q : Stm V A E} → Built A p → Built A q → Built A (or_else p q)

module _ {ℓ} {V E : Type ℓ} where
  pub Built-Replays : {A : Type ℓ} {p : Stm V A E} → Built A p → Replays p
  Built-Replays (succeeding a) = Replays-succeed a
  Built-Replays (failing e) = Replays-fail_with e
  Built-Replays retrying = Replays-retry_now
  Built-Replays (checking cond) = Replays-check cond
  Built-Replays (reading r) = Replays-read_stm r
  Built-Replays (writing r v) = Replays-write_stm r v
  Built-Replays (updating r f) = Replays-update_stm r f
  Built-Replays (modifying r f) = Replays-modify_stm r f
  Built-Replays (mapping {p = p} f b) = Replays-map p f (Built-Replays b)
  Built-Replays (binding {p = p} {f = f} b k) =
      Replays-flat_map p f (Built-Replays b) (λ a. Built-Replays (k a))
  Built-Replays (choosing {p = p} {q = q} b c) =
      Replays-or_else p q (Built-Replays b) (Built-Replays c)

module _ {ℓ} {V A E : Type ℓ} (stm : Stm V A E) where
  -- Let a program of the combinators be committed in a world where other threads have fewer than
  -- 2⁶⁴ cell writes to make. Every value that `commit` returns, after any number of retries and
  -- failed validations, is that of a serial execution: after some of the other threads' turns, on
  -- the heap that stands then, the same program run alone commits at its first attempt, returns the
  -- same value and leaves the heap that `commit` left; the other turns are still to come.
  pub commit_serializable :
      (fuel : ℕ) (w : World V) (a : A) (w' : World V)
      → Built A stm
      → pending w < version_mod
      → commit fuel stm w ≡ some (ok a, w')
      → SerialAt stm w a w'
  commit_serializable fuel w a w' b = serial_of_Replays stm fuel w a w' (Built-Replays b)

  -- Alone, one attempt of a program of the combinators decides its commit: a value is committed at
  -- the first attempt with exactly the writes of the log, a failure leaves the heap as it was, and
  -- a retry goes on for ever, whatever the fuel.
  pub commit_alone :
      (fuel : ℕ) (h : Heap V)
      → Built A stm
      → commit (suc fuel) stm (quiet h)
        ≡ alone_result h (stm (quiet h) Txn.new).2 (stm (quiet h) Txn.new).0
  commit_alone fuel h b = alone_of_Replays fuel stm h (Built-Replays b)

-- ===== src/Pthread/State/Spin.antt =====
-- The queue spinlock: it is taken at once when free, and never when held.
use osdesignasst.Prelude.{ℕ, zero, suc, ◌≡◌, ◌≢◌, refl, ok, fault, hang, arith}
use osdesignasst.Pthread.State.{Pthread, spin, acquire_queue_spinlock}

-- However many rounds it is given, at least one, the wait for the lock ends exactly as after one
-- round: at once if the lock is free, and never if it is held.
pub spin_rounds : (n : ℕ) (lock : ℕ) → spin (suc n) lock ≡ spin 1 lock
unfolding spin
spin_rounds zero lock = refl
spin_rounds (suc n) lock = ground (arith, spin_rounds n lock)

module _ {Vm : Type 0} (s : Pthread Vm) where
  pub acquire-free :
      s.queue_spinlock ≡ 0
      → acquire_queue_spinlock s ≡ ok (record s { queue_spinlock = 1; timer = 25000 })
  unfolding acquire_queue_spinlock
  acquire-free h = ground arith

  pub acquire-held : s.queue_spinlock ≢ 0 → acquire_queue_spinlock s ≡ fault hang
  unfolding acquire_queue_spinlock
  acquire-held h = ground arith

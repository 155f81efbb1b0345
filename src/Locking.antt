-- ===== src/Locking.antt =====
-- locking/locker.py: the set of the keys that are held. Each operation runs under the mutex
-- `self._lock`, so it is one step.
pub mod Mutex
use tlo.Prelude.{String, Bool, true, false, List, [], ◌∷◌, text_dec, ite, if◌then◌else◌}
use tlo.Errors.{Action}

pub record InMemoryLocker : Type 0 where
  pub keys : List String

abbrev pub init : InMemoryLocker
init = record { keys = [] }

unfoldable pub contains : String → List String → Bool
contains key [] = false
contains key (k ∷ ks) = ite (text_dec k key) true (contains key ks)

-- `set.discard`
unfoldable pub discard : String → List String → List String
discard key [] = []
discard key (k ∷ ks) = ite (text_dec k key) (discard key ks) (k ∷ discard key ks)

unfoldable pub acquire : String → InMemoryLocker → InMemoryLocker × Bool
unfolding contains
acquire key l = if contains key l.keys then (l, false) else (record l { keys = key ∷ l.keys }, true)

unfoldable pub release : String → InMemoryLocker → InMemoryLocker
unfolding discard
release key l = record l { keys = discard key l.keys }

unfoldable pub is_locked : String → InMemoryLocker → Bool
unfolding contains
is_locked key l = contains key l.keys

-- `with locker.guard(key) as acquired: body`, over a state that holds the locker: what was acquired
-- is released however the body ends.
unfoldable pub guard :
    {S A : Type 0} (get : S → InMemoryLocker) (put : InMemoryLocker → S → S) (key : String)
    → (Bool → Action S A)
    → Action S A
guard get put key body s =
    let (l, acquired) = acquire key (get s) in
    let (s', result) = body acquired (put l s) in
    if acquired then (put (release key (get s')) s', result) else (s', result)

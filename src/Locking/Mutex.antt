-- ===== src/Locking/Mutex.antt =====
-- The locker as a mutex for each key, and its context manager.
use tlo.Prelude.{
  String, ◌≡◌, ◌≢◌, refl, ◌∙◌, Bool, true, false, not, List, [], ◌∷◌, text_dec, ite, if_pos, if_neg,
  arith,
}
use tlo.Errors.{Action}
use tlo.Locking.{InMemoryLocker, contains, discard, acquire, release, is_locked, guard}

contains-discard :
    (j k : String) (ks : List String)
    → contains j (discard k ks) ≡ ite (text_dec k j) false (contains j ks)
unfolding contains discard
contains-discard j k [] = ground arith
contains-discard j k (i ∷ ks) = ground (arith, contains-discard j k ks)

-- Releasing frees the key and no other.
pub is_locked-release :
    (j k : String) (l : InMemoryLocker)
    → is_locked j (release k l) ≡ ite (text_dec k j) false (is_locked j l)
unfolding is_locked release
is_locked-release j k l = contains-discard j k l.keys

pub is_locked-release_same : (k : String) (l : InMemoryLocker) → is_locked k (release k l) ≡ false
is_locked-release_same k l = is_locked-release k k l ∙ if_pos (text_dec k k) refl _ _

-- Acquiring succeeds exactly if the key is free; the key is locked behind it, and every other key
-- is as it was.
pub acquire_lem :
    (j k : String) (l : InMemoryLocker)
    → ((acquire k l).1 ≡ not (is_locked k l))
      × (is_locked j (acquire k l).0 ≡ ite (text_dec k j) true (is_locked j l))
unfolding acquire is_locked
acquire_lem j k l = (ground arith, ground arith)

module _ {S A : Type 0} (get : S → InMemoryLocker) (put : InMemoryLocker → S → S) (key : String)
    (body : Bool → Action S A) (s : S) where
  -- With a key that is held, guard is its body told so: nothing is locked before it and nothing
  -- released behind it.
  pub guard_busy :
      is_locked key (get s) ≡ true → guard get put key body s ≡ body false (put (get s) s)
  unfolding guard is_locked acquire
  guard_busy h = ground arith

  -- The state in which the body runs when it has the lock.
  abbrev pub locked : S
  locked = put (acquire key (get s)).0 s

  -- A free key: the body runs with the lock, which is released behind it.
  pub guard_took :
      is_locked key (get s) ≡ false
      → guard get put key body s
        ≡ (put (release key (get (body true locked).0)) (body true locked).0, (body true locked).1)
  unfolding guard
  guard_took h = rw (took, guard) refl
    where
      took : (acquire key (get s)).1 ≡ true
      took = ground (arith, acquire_lem key key (get s))

  -- With a free key, where put stores the locker that get reads, the body of guard runs with the
  -- key locked and its result is the result; behind it, whether it returns or raises, the key is
  -- free and every other key is as the body left it.
  pub guard_free :
      ((l : InMemoryLocker) (u : S) → get (put l u) ≡ l)
      → is_locked key (get s) ≡ false
      → (is_locked key (get locked) ≡ true)
        × ((guard get put key body s).1 ≡ (body true locked).1)
        × (is_locked key (get (guard get put key body s).0) ≡ false)
        × ((j : String)
            → key ≢ j
            → is_locked j (get (guard get put key body s).0)
              ≡ is_locked j (get (body true locked).0))
  unfolding guard
  guard_free law h =
      rw (took, guard)
        (
          rw law held,
          refl,
          rw (law, is_locked-release) (if_pos (text_dec key key) refl _ _),
          λ j q. rw (law, is_locked-release) (if_neg (text_dec key j) q _ _),
        )
    where
      took : (acquire key (get s)).1 ≡ true
      took = ground (arith, acquire_lem key key (get s))

      held : is_locked key (acquire key (get s)).0 ≡ true
      held = (acquire_lem key key (get s)).1 ∙ if_pos (text_dec key key) refl true _

-- ===== src/Errors.antt =====
-- errors.py, and how the model writes a call that may raise: the state that is left, with the
-- value or the exception. Texts of messages are left out, except for the name that a failed task
-- lookup reports.
use tlo.Prelude.{◌≡◌, refl, ◌⊎◌, inl, inr, String, Bool, false}

pub data TloError : Type 0 where
  config_error input_error invalid_registration_error queue_empty_error : TloError
  task_state_does_not_exist_error task_already_finished_error : TloError
  task_lookup_error : String → TloError

-- What is raised: an error of the package, one of Python's own, or one of a task's function.
pub data Exception : Type 0 where
  tlo_error : TloError → Exception
  type_error value_error key_error index_error assertion_error import_error attribute_error :
      Exception
  user : String → Exception

pub data Result {ℓ} (A : Type ℓ) : Type ℓ where
  ok : A → Result A
  raise : Exception → Result A

abbrev pub Action : Type 0 → Type 0 → Type 0
Action S A = S → S × Result A

abbrev pub return : {S A : Type 0} → A → Action S A
return a s = (s, ok a)

abbrev pub throw : {S A : Type 0} → Exception → Action S A
throw e s = (s, raise e)

abbrev pub then_do : {S A B : Type 0} → (A → Action S B) → S × Result A → S × Result B
then_do f (s, ok a) = f a s
then_do f (s, raise e) = (s, raise e)

infixl 5 ◌>>=◌ ◌>>◌
abbrev pub ◌>>=◌ : {S A B : Type 0} → Action S A → (A → Action S B) → Action S B
◌>>=◌ m f s = then_do f (m s)

abbrev pub ◌>>◌ : {S B : Type 0} → Action S (Unit {0}) → Action S B → Action S B
m >> k = m >>= λ _. k

-- `try: m` with an `else` part and a handler.
abbrev pub settle :
    {S A B : Type 0} → (A → Action S B) → (Exception → Action S B) → S × Result A → S × Result B
settle f handler (s, ok a) = f a s
settle f handler (s, raise e) = handler e s

-- `except TloQueueEmptyError: continue`
unfoldable pub skip_if_empty : {S : Type 0} → Exception → Action S Bool
skip_if_empty (tlo_error queue_empty_error) s = (s, ok false)
skip_if_empty e s = (s, raise e)

pub Result-cases :
    {A : Type 0} (r : Result A) → ((a : A) × (r ≡ ok a)) ⊎ ((e : Exception) × (r ≡ raise e))
Result-cases (ok a) = inl (a, refl)
Result-cases (raise e) = inr (e, refl)

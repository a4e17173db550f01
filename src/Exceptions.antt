-- ===== src/Exceptions.antt =====
-- The exceptions that the services raise or let pass, and the results of calls that may raise.
use procore_intake_bridge.Base.{String, ◌≡◌, ◌≢◌, ◌⊎◌, inl, inr, refl, ap}

-- A class that the services name, with its message, or any other class by its name.
pub data Exception : Type 0 where
  lookup_error sync_profile_disabled sync_profile_locked live_polling_disabled : String → Exception
  live_polling_not_implemented event_locked runtime_error value_error : String → Exception
  lifecycle_error lifecycle_blocked : String → Exception
  other : String → String → Exception

-- `type(exc).__name__`.
unfoldable pub type_name : Exception → String
type_name (lookup_error m) = "LookupError"
type_name (sync_profile_disabled m) = "SyncProfileDisabledError"
type_name (sync_profile_locked m) = "SyncProfileLockedError"
type_name (live_polling_disabled m) = "LivePollingDisabledError"
type_name (live_polling_not_implemented m) = "LivePollingNotImplementedError"
type_name (event_locked m) = "EventLockedError"
type_name (runtime_error m) = "RuntimeError"
type_name (value_error m) = "ValueError"
type_name (lifecycle_error m) = "IntakeLifecycleError"
type_name (lifecycle_blocked m) = "IntakeLifecycleBlockedError"
type_name (other name m) = name

-- `str(exc)`.
unfoldable pub message_of : Exception → String
message_of (lookup_error m) = m
message_of (sync_profile_disabled m) = m
message_of (sync_profile_locked m) = m
message_of (live_polling_disabled m) = m
message_of (live_polling_not_implemented m) = m
message_of (event_locked m) = m
message_of (runtime_error m) = m
message_of (value_error m) = m
message_of (lifecycle_error m) = m
message_of (lifecycle_blocked m) = m
message_of (other name m) = m

pub data Result {ℓ} (A : Type ℓ) : Type ℓ where
  returned : A → Result A
  raised : Exception → Result A

abbrev value_or {ℓ} : {A : Type ℓ} → A → Result A → A
value_or d (returned a) = a
value_or d (raised e) = d

abbrev pub IsReturned {ℓ} : {A : Type ℓ} → Result A → Type 0
IsReturned (returned a) = Unit {0}
IsReturned (raised e) = ⊥

pub returned-injective {ℓ} : {A : Type ℓ} {a b : A} → returned a ≡ returned b → a ≡ b
returned-injective {a = x} h = ap (value_or x) h

pub raised-ne-returned {ℓ} : {A : Type ℓ} {e : Exception} {a : A} → raised e ≢ returned a
raised-ne-returned h = cc

pub Result-cases {ℓ} :
    {A : Type ℓ}
    → (r : Result A) → ((a : A) × (r ≡ returned a)) ⊎ ((e : Exception) × (r ≡ raised e))
Result-cases (returned a) = inl (a, refl)
Result-cases (raised e) = inr (e, refl)

-- ===== src/Control/Reply.antt =====
-- How the control API answers: what a handler sends or throws, and the error handler
-- (apps/platform-control-api/src/server.ts).
use aws_architecture.Base.{
  ℕ, String, Bool, true, false, leb, if◌then◌else◌, Result, ok, throw, Failure, error, coded, http,
}

-- `refused`: an error envelope that the handler itself sends, with the request's id. `thrown`: an
-- exception, which goes on to the error handler.
pub data Reply (A : Type 0) : Type 0 where
  sent : (status : ℕ) → A → Reply A
  refused : (status : ℕ) (code message request_id : String) → Reply A
  thrown : Failure → Reply A

-- A guard that throws, in front of the rest of a handler that keeps a state.
abbrev pub guarded : {A S : Type 0} → Result (Unit {0}) → S → S × Reply A → S × Reply A
guarded (ok _) s rest = rest
guarded (throw e) s rest = (s, thrown e)

pub record Envelope : Type 0 where
  pub status : ℕ
  pub code : String
  pub message : String
  pub request_id : String

abbrev status_of : Failure → ℕ
status_of (error m) = 500
status_of (coded c m) = 500
status_of (http s c m) = s

abbrev code_of : Failure → ℕ → String
code_of (error m) status = if leb 500 status then "INTERNAL_ERROR" else "CONTROL_REQUEST_REJECTED"
code_of (coded c m) status = c
code_of (http s c m) status = c

abbrev message_of : Failure → String
message_of (error m) = m
message_of (coded c m) = m
message_of (http s c m) = m

-- `setErrorHandler`: a failure without a status is an internal error, whose message is not shown.
unfoldable pub on_error : Failure → (request_id : String) → Envelope
on_error e request_id =
    let status = status_of e in
    record {
      status = status;
      code = code_of e status;
      message = if leb 500 status then "Control-plane request failed" else message_of e;
      request_id = request_id;
    }

-- What holds of a handler's state with and without its guard holds behind the guard; so for a test.
pub guarded_state {ℓ} :
    {A S : Type 0} (P : S → Type ℓ) (g : Result (Unit {0})) (s : S) (rest : S × Reply A)
    → P s
    → P rest.0
    → P (guarded g s rest).0
guarded_state P (ok _) s rest h k = k
guarded_state P (throw e) s rest h k = h

pub if_state {ℓ} :
    {A S : Type 0} (P : S → Type ℓ) (b : Bool) (x y : S × Reply A)
    → P x.0
    → P y.0
    → P (if b then x else y).0
if_state P true x y h k = h
if_state P false x y h k = k

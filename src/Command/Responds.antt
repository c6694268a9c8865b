-- ===== src/Command/Responds.antt =====
-- The statuses of the answers to the results of commands.
use simple_c_database.Command.Data.{
  Floats, Tag, type_get, type_set, type_add, type_del, type_exist, type_replace, type_resize,
  type_clear, type_loadfactor, type_count, type_error, type_empty, Entry, CommandResult,
  ExecuteResult,
}
use simple_c_database.Command.Ended.{HasValue}
use simple_c_database.Command.Execute.{
  create_error_response, body_or_error, count_text, respond_text, respond_error, respond_get,
  respond_exist, respond,
}
use simple_c_database.Prelude.{
  ℕ, ◌≡◌, ◌+◌, refl, Bool, true, not, ◌||◌, Option, none, some, ℤ, is_zero, Bool-cases,
  Option-cases, inl, inr, ◌==◌, length, leb, codes, if◌then◌else◌,
}
use simple_c_database.Strings.{Bytes, ustrdup, memdup}
use simple_c_database.Table.Data.{Env, Outcome, done}

-- The status codes of the protocol.
abbrev pub IsStatus : ℕ → Type 0
IsStatus s = (s == 200 || s == 400 || s == 404 || s == 409 || s == 500) ≡ true

-- An answer with a status of the protocol.
abbrev pub Responds : Outcome ExecuteResult → Type 0
Responds o = (x : ExecuteResult) × (o ≡ done x) × IsStatus x.status_code

module _ (env : Env) where
  pub create_error_response-IsStatus :
      (status : ℕ) (message : Bytes)
      → IsStatus status
      → IsStatus (create_error_response env status message).status_code
  unfolding create_error_response
  create_error_response-IsStatus status message h =
      elim (Option-cases (ustrdup env.malloc (some message))) [
        | inl e ↦ rw (e, create_error_response) refl
        | inr (body, e) ↦ rw (e, create_error_response) h
      ]

  body_or_error-IsStatus :
      (body : Option Bytes) (n : ℕ) → IsStatus (body_or_error env body n).status_code
  body_or_error-IsStatus none n = create_error_response-IsStatus 500 (codes "Out of memory") refl
  body_or_error-IsStatus (some body) n = refl

  module _ (f : Floats) where
    respond_text-IsStatus :
        (failure : Bytes) (text : Option Bytes)
        → IsStatus (respond_text f env failure text).status_code
    unfolding respond_text
    respond_text-IsStatus failure none = create_error_response-IsStatus 500 failure refl
    respond_text-IsStatus failure (some text) = elim (Bool-cases (leb 64 (length text))) [
      | inl long ↦ rw long (create_error_response-IsStatus 500 failure refl)
      | inr short ↦ rw short (
          body_or_error-IsStatus (if env.malloc (length text + 1) then some text else none)
            (length text))
    ]

    respond_error-IsStatus : (error : ℤ) → IsStatus (respond_error f env error).status_code
    unfolding respond_error
    respond_error-IsStatus error = elim (Bool-cases (not (is_zero error))) [
      | inl failed ↦ rw failed (create_error_response-IsStatus 409 (codes "Operation failed") refl)
      | inr passed ↦ rw passed refl
    ]

    respond_exist-IsStatus : (b : Bool) → IsStatus (respond_exist f env b).status_code
    unfolding respond_exist
    respond_exist-IsStatus b =
        elim (Option-cases (ustrdup env.malloc (some (if b then codes "1" else codes "0")))) [
          | inl e ↦
              rw (e, respond_exist)
                (create_error_response-IsStatus 500 (codes "Out of memory") refl)
          | inr (body, e) ↦ rw (e, respond_exist) refl
        ]

    respond_get-Responds :
        (value : Option Entry) → HasValue type_get value → Responds (respond_get f env value)
    unfolding respond_get
    respond_get-Responds none h = absurd h
    respond_get-Responds (some e) h =
        (_, refl, body_or_error-IsStatus (memdup env.malloc e.bytes e.size) e.size)

    -- A result that can be answered is answered with a status of the protocol.
    pub respond-Responds :
        (tag : Tag) (r : CommandResult f.Double)
        → HasValue tag r.value
        → Responds (respond f env tag r)
    unfolding respond
    respond-Responds type_get r h = respond_get-Responds r.value h
    respond-Responds type_set r h = (_, refl, respond_error-IsStatus r.error)
    respond-Responds type_add r h = (_, refl, respond_error-IsStatus r.error)
    respond-Responds type_del r h = (_, refl, respond_error-IsStatus r.error)
    respond-Responds type_replace r h = (_, refl, respond_error-IsStatus r.error)
    respond-Responds type_resize r h = (_, refl, respond_error-IsStatus r.error)
    respond-Responds type_clear r h = (_, refl, respond_error-IsStatus r.error)
    respond-Responds type_exist r h = (_, refl, respond_exist-IsStatus r.existence)
    respond-Responds type_count r h = (
      _,
      refl,
      respond_text-IsStatus (codes "Failed to format COUNT result")
          (count_text f r.count_type r.counter),
    )
    respond-Responds type_loadfactor r h = (
      _,
      refl,
      respond_text-IsStatus (codes "Failed to format LOADFACTOR result")
          (f.print_fixed 4 r.load_factor),
    )
    respond-Responds type_empty r h =
        (_, refl, create_error_response-IsStatus 404 (codes "Key not found") refl)
    respond-Responds type_error r h =
        (_, refl, create_error_response-IsStatus 500 (codes "Internal server error") refl)

-- ===== src/Api.antt =====
-- internal/api/handler.go: the responses, New and the handlers that need no store.
-- What a client sends is a path and, by name, the first value of each query parameter, which is empty
-- where there is none.
pub mod Search
pub mod Known
pub mod Event
pub mod Tail
pub mod Routes
use grepod.Prelude.{
  ℕ, Bool, true, false, Option, none, some, Text, codes, not, text_beq, if◌then◌else◌,
}
use grepod.Prelude.Int.{ℤ, pos, is_positive}

-- A body; each kind has its content type.
pub data Body (A : Type 0) : Type 0 where
  json : A → Body A
  json_error : Text → Body A
  plain : Text → Body A
  html : Text → Body A

pub record Response (A : Type 0) : Type 0 where
  pub status : ℕ
  pub body : Body A

module _ {A : Type 0} where
  abbrev pub write_json : ℕ → A → Response A
  write_json status v = record { status = status; body = json v }

  abbrev pub write_json_error : ℕ → Text → Response A
  write_json_error status msg = record { status = status; body = json_error msg }

  -- `ready` is what the function answers that New was given.
  pub handle_healthz : Response A
  handle_healthz = record { status = 200; body = plain (codes "ok") }

  pub handle_readyz : Bool → Response A
  handle_readyz ready =
      if not ready
      then record { status = 503; body = plain (codes "not ready") }
      else record { status = 200; body = plain (codes "ok") }

  -- `page` is what the template gives, or its error, which comes before anything is written.
  pub handle_index : Option Text → Text → Text → Response A
  handle_index page reason path =
      if not (text_beq path (codes "/"))
      then record { status = 404; body = plain (codes "404 page not found") }
      else elim page [
        | none ↦ record { status = 500; body = plain reason }
        | some text ↦ record { status = 200; body = html text }
      ]

-- New: the days that a search without dates looks back.
unfoldable pub default_days : ℤ → ℤ
default_days n = if is_positive n then n else pos 7

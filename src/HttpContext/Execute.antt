-- ===== src/HttpContext/Execute.antt =====
-- CEventLoop/Http/HttpContext.cc, `execute`: the second parser, over llhttp, and the callback for a
-- message that is complete. The parser is a parameter: its state, and for each text what it becomes and
-- how many messages end in it.
use cevent_loop.Prelude.{
  ℕ, zero, suc, Option, none, some, Exec, ok, fault, ◌>>=◌, bad_function_call,
}
use cevent_loop.Prelude.Text.{Text}
use cevent_loop.HttpContext.{HttpContext, HttpRequest, expect_request_line}

pub record Llhttp (P : Type 0) : Type 0 where
  pub init : P
  pub advance : Text → P → P
  pub completed : Text → P → ℕ

-- `RequestCallback`, on the request and on what it changes elsewhere.
abbrev pub RequestCallback : Type 0 → Type 0
RequestCallback W = HttpRequest → W → Exec (HttpRequest × W)

-- The context with `parser_` and `cb_`.
pub record Executing (P W : Type 0) : Type 0 where
  pub context : HttpContext
  pub parser : P
  pub request_callback : Option (RequestCallback W)

module _ {W : Type 0} where
  -- `onMessageConplete`
  unfoldable pub on_message_complete :
      Option (RequestCallback W) → HttpRequest → W → Exec (HttpRequest × W)
  on_message_complete none request w = fault bad_function_call
  on_message_complete (some f) request w = f request w

  -- As many messages end.
  unfoldable pub complete :
      Option (RequestCallback W) → ℕ → HttpRequest → W → Exec (HttpRequest × W)
  unfolding on_message_complete
  complete cb zero request w = ok (request, w)
  complete cb (suc n) request w =
      on_message_complete cb request w >>= λ (request', w'). complete cb n request' w'

module _ {P W : Type 0} where
  -- The constructor, around what the memory of the request held.
  unfoldable pub start : Llhttp P → HttpRequest → Executing P W
  start L request = record {
    context = record { request = request; state = expect_request_line };
    parser = L.init;
    request_callback = none;
  }

  unfoldable pub set_request_callback : RequestCallback W → Executing P W → Executing P W
  set_request_callback f c = record c { request_callback = some f }

  unfoldable pub execute : Llhttp P → Text → Executing P W → W → Exec (Executing P W × W)
  unfolding complete
  execute L text c w =
      complete c.request_callback (L.completed text c.parser) c.context.request w
      >>= λ (request, w'). ok (
        record c {
          parser = L.advance text c.parser;
          context = record c.context { request = request };
        },
        w',
      )

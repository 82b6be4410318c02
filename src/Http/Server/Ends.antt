-- ===== src/Http/Server/Ends.antt =====
-- src/tudou/http/HttpServer.cpp: the loop of on_message ends.
use tudou.Prelude.{
  ℕ, zero, suc, ◌≤◌, Bool, true, false, ◌≡◌, refl, sym, subst, List, [], ◌∷◌, Option, none, some,
  by_both, length, drop, length-drop, lookup, lookup_inserted, lookup_erased, number_eq,
  if◌then◌else◌, ◌==◌, Text, arith,
}
use tudou.Http.Message.{HttpResponse}
use tudou.Http.Context.{
  HttpContext, complete, ParserError, Executed, ok, paused, failed, on_events, result_of,
  consumed_of, parse, reset,
}
use tudou.Http.Tls.{}
use tudou.Http.Server.{
  World, ConnectionState, HttpServer, Effect, Exchange, send_http_response, restarted, bad_request,
}
use tudou.Http.Server.Events.{
  Ending, returned, threw, unfinished, after_parse, serve, build_http_response,
  reply_complete_request, with_http, payload_of, handle, serve_payload, on_message, settle,
}
use tudou.Http.Server.Payload.{parser-payload_of}

-- What the server relies on of llhttp: a parser that has been reset is ready and stays so until it
-- pauses or fails. It pauses behind a byte, and only when it has completed a message.
pub record PausesAtEnds (w : World) : Type 1 where
  pub Ready : w.Parser → Type 0
  pub ready_restart : (p : w.Parser) → Ready (w.restart p)
  pub ready_ok :
      (p : w.Parser) (bytes : Text)
      → Ready p
      → (w.execute p bytes).err ≡ ok
      → Ready (w.execute p bytes).parser
  pub pauses :
      (p : w.Parser) (bytes : Text) (c : HttpContext)
      → Ready p
      → (w.execute p bytes).err ≡ paused
      → ((n : ℕ) × ((w.execute p bytes).error_pos ≡ some (suc n)))
        × ((on_events c (w.execute p bytes).events).is_complete ≡ true)

suc_is_not_0 : (n : ℕ) → (suc n == 0) ≡ false
suc_is_not_0 n = grind arith

module _ (w : World) (laws : PausesAtEnds w) where
  -- The handling has ended, with a parser that is ready unless a handler threw.
  abbrev pub Ended : Exchange w → Ending → Type 0
  Ended x returned = laws.Ready x.state.parser
  Ended x threw = Unit
  Ended x unfinished = ⊥

  abbrev pub IsReadyIn : Option (ConnectionState w) → Type 0
  IsReadyIn none = Unit
  IsReadyIn (some state) = laws.Ready state.parser

  abbrev pub IsSettled : ℕ → HttpServer w × List Effect × Ending → Type 0
  IsSettled conn (s, effects, returned) = IsReadyIn (lookup conn s.connection_states)
  IsSettled conn (s, effects, threw) = Unit
  IsSettled conn (s, effects, unfinished) = ⊥

  abbrev HasEnded : Exchange w × Ending → Type 0
  HasEnded (x, ending) = Ended x ending

  -- A turn ends, if going on with fewer bytes and a parser that is ready does.
  module _ (s : HttpServer w) (continue : Exchange w → Text → Exchange w × Ending) (x : Exchange w)
      (b : ℕ) (bytes : Text)
      (goes_on : (y : Exchange w) (n : ℕ)
        → laws.Ready y.state.parser
        → HasEnded (continue y (drop (suc n) (b ∷ bytes)))) where
    ends_known :
        (z : Exchange w) (n : ℕ) (known : Bool)
        → laws.Ready z.state.parser
        → HasEnded (if known then continue z (drop (suc n) (b ∷ bytes)) else (z, returned))
    ends_known z n true h = goes_on z n h
    ends_known z n false h = h

    ends_complete :
        (y : Exchange w) (n : ℕ) (o : Option HttpResponse)
        → HasEnded
            (elim (elim o as (λ _. Option (Exchange w)) [
              | none ↦ none
              | some response ↦ some (restarted w (send_http_response w s y response))
            ])
              as (λ _. Exchange w × Ending) [
                | none ↦ (y, threw)
                | some z ↦
                    if z.is_known then continue z (drop (suc n) (b ∷ bytes)) else (z, returned)
              ])
    unfolding reset
    ends_complete y n none = tt
    ends_complete y n (some r) =
        ends_known (restarted w (send_http_response w s y r)) n
          (send_http_response w s y r).is_known
          (laws.ready_restart (send_http_response w s y r).state.parser)

    ends_turn :
        (p : w.Parser) (c : HttpContext) (err : ParserError) (pos : Option ℕ) (done : Bool)
        → (err ≡ ok → laws.Ready p)
        → (err ≡ paused → ((n : ℕ) × (pos ≡ some (suc n))) × (done ≡ true))
        → HasEnded (
            after_parse w s continue x
              (b ∷ bytes)
              (p, c, result_of err done, consumed_of err pos (length (b ∷ bytes))))
    unfolding reply_complete_request reset
    ends_turn p c failed pos done is_ok pauses =
        laws.ready_restart (send_http_response w s (with_http w x p c) bad_request).state.parser
    ends_turn p c ok pos false is_ok pauses =
        subst
          (λ (t : Bool). HasEnded (
            if t
            then (with_http w x p c, returned)
            else continue (with_http w x p c) (drop (length bytes) bytes)))
          (sym (suc_is_not_0 (length bytes)))
          (goes_on (with_http w x p c) (length bytes) (is_ok refl))
    ends_turn p c ok pos true is_ok pauses =
        ends_complete (with_http w x p c) (length bytes) (build_http_response w s c.request)
    ends_turn p c paused pos done is_ok pauses =
        let ((n, e), d) = pauses refl in
        subst
          (λ t. HasEnded (
            after_parse w s continue x (b ∷ bytes)
              (p, c, result_of paused t, consumed_of paused pos (length (b ∷ bytes)))))
          (sym d)
          (subst
            (λ q. HasEnded (
              after_parse w s continue x (b ∷ bytes)
                (p, c, complete, consumed_of paused q (length (b ∷ bytes)))))
            (sym e) (ends_complete (with_http w x p c) n (build_http_response w s c.request)))

  ends_serve :
      (fuel : ℕ) (s : HttpServer w) (x : Exchange w) (payload : Text)
      → length payload ≤ fuel
      → laws.Ready x.state.parser
      → HasEnded (serve w fuel s x payload)
  unfolding serve parse
  ends_serve fuel s x [] h r = r
  ends_serve zero s x (b ∷ bytes) h r = absurd (omega arith)
  ends_serve (suc fuel) s x (b ∷ bytes) h r =
      ends_turn s (serve w fuel s) x b bytes
        (λ y n ready.
          ends_serve fuel s y (drop n bytes) (omega (arith, h, length-drop n bytes)) ready)
        ex.parser (on_events x.state.http_context ex.events) ex.err ex.error_pos _
        (laws.ready_ok x.state.parser (b ∷ bytes) r)
        (laws.pauses x.state.parser (b ∷ bytes) x.state.http_context r)
    where
      ex : Executed w.Parser
      ex = w.execute x.state.parser (b ∷ bytes)

  ends_handle :
      (s : HttpServer w) (state : ConnectionState w) (received : Text)
      → laws.Ready state.parser
      → HasEnded (handle w s state received)
  unfolding handle
  ends_handle s state received r = ends_payload (payload_of w s start received).1
    where
      start : Exchange w
      start = record { state = state; is_known = true; effects = [] }

      read : Exchange w
      read = (payload_of w s start received).0

      is_ready : laws.Ready read.state.parser
      is_ready = subst laws.Ready (sym (parser-payload_of w s start received)) r

      ends_payload : (o : Option Text) → HasEnded (serve_payload w s read o)
      ends_payload none = is_ready
      ends_payload (some payload) =
          ends_serve (length payload) s read payload (omega arith) is_ready

  settles :
      (s : HttpServer w) (conn : ℕ) (x : Exchange w) (ending : Ending)
      → Ended x ending
      → IsSettled conn (settle w s conn x, x.effects, ending)
  settles s conn x unfinished h = h
  settles s conn x threw h = tt
  settles s conn x returned h =
      by_both (λ (m : List (ℕ × ConnectionState w)). IsReadyIn (lookup conn m)) x.is_known
        (subst IsReadyIn (sym (lookup_inserted conn x.state s.connection_states)) h)
        (subst IsReadyIn (sym (lookup_erased conn s.connection_states)) tt)

  -- A message on a connection whose parser is ready: the handling comes to an end, the loop over
  -- the requests included. If no handler throws, the connection is then no longer in the table or
  -- its parser is ready again.
  pub on_message_ends :
      (s : HttpServer w) (conn : ℕ) (received : Text) (state : ConnectionState w)
      → lookup conn s.connection_states ≡ some state
      → laws.Ready state.parser
      → IsSettled conn (on_message w s conn received)
  unfolding on_message
  on_message_ends s conn [] state e r = subst IsReadyIn (sym e) r
  on_message_ends s conn (b ∷ received) state e r =
      subst
        (λ o. IsSettled conn (elim o [
          | none ↦ (s, [], returned)
          | some t ↦
              let (x, ending) = handle w s t (b ∷ received) in
              (settle w s conn x, x.effects, ending)
        ]))
        (sym e)
        (settles s conn (handle w s state (b ∷ received)).0 (handle w s state (b ∷ received)).1
          (ends_handle s state (b ∷ received) r))

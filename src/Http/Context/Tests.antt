-- ===== src/Http/Context/Tests.antt =====
-- Http/Context at a concrete message: GET /a?b, cut within the target and within a header.
use tudou.Prelude.{true, ◌≡◌, refl, [], ◌∷◌, Text, text}
use tudou.Http.Context.{new_context, on_events}
use tudou.Http.Context.Pieces.{on_events-callbacks}
use tudou.Http.Context.Messages.{Pieces, Message, callbacks, request_of, whole}

abbrev one_piece : Text → Pieces
one_piece bytes = record { first = bytes; others = [] }

abbrev get_a : Message
get_a = record {
  method = text "GET";
  target = record { first = text "/a"; others = text "?b" ∷ [] };
  headers =
      (record { first = text "Ho"; others = text "st" ∷ [] }, one_piece (text "h"))
      ∷ (one_piece (text "Accept"), record { first = []; others = text "x" ∷ text "y" ∷ [] })
      ∷ [];
  contents = text "01" ∷ text "2" ∷ [];
  major = 1;
  minor = 1;
}

on_events-callbacks_example : on_events new_context (callbacks get_a) ≡ record new_context {
  request = request_of get_a;
  is_complete = true;
  current_url = whole get_a.target;
}
on_events-callbacks_example = on_events-callbacks get_a (refl, (refl, tt)) new_context

splits_the_target : (request_of get_a).query ≡ text "b"
splits_the_target = refl

-- ===== src/Client/Parted.antt =====
-- The input of a client, parted into the heads that were taken and what is left.
use vakya.Prelude.{
  refl, ok, err, Result, ◌≡◌, sym, ap, ◌∙◌, List, [], ◌∷◌, ◌++◌, append-nil, append_assoc, Bytes,
  Result,
}
use vakya.Message.{Error}
use vakya.Http.{Http}
use vakya.Head.Response.{ValidatedResponseHead}
use vakya.Exchange.{ExchangePolicy}
use vakya.Io.Recv.{bytes}
use vakya.Io.Retained.{IsSound}
use vakya.Client.Heads.{HeadState, HeadsReceived, stopped, with_taken, with_arrived}
use vakya.Head.{HeadError}
use vakya.Head.Response.{ResponseHead}
use vakya.Exchange.{receive_head}

abbrev pub joined : List Bytes → Bytes
joined [] = []
joined (x ∷ xs) = x ++ joined xs

-- The policy of an exchange after it was given what the parse of one head answered: an error is
-- not given to it.
module _ (http : Http) where
  abbrev pub after_head : ExchangePolicy → Result HeadError (ResponseHead http) → ExchangePolicy
  after_head p (err e) = p
  after_head p (ok response) = (receive_head http p response).0

-- `parse` is the parse of one head.
module _ (http : Http) (parse : Bytes → Result HeadError (ResponseHead http)) where
  -- The policy after the heads in `taken`, each parsed and given to it in order.
  abbrev pub after_heads : ExchangePolicy → (taken : List Bytes) → ExchangePolicy
  after_heads p [] = p
  after_heads p (input ∷ taken) = after_heads (after_head http p (parse input)) taken

  -- From `input` and the policy `p` on: what was there and what came are the heads that were taken
  -- and then what the buffer still has; and the policy was given those heads and nothing else.
  pub record Parted (input : Bytes) (p : ExchangePolicy) (t : HeadsReceived http) : Type 0 where
    pub splits : input ++ t.arrived ≡ joined t.taken ++ bytes t.state.buffer
    pub sound : IsSound t.state.buffer
    pub heard : t.state.policy ≡ after_heads p t.taken

  pub stopped-Parted :
      (s : HeadState) (result : Result Error (ValidatedResponseHead http))
      → IsSound s.buffer
      → Parted (bytes s.buffer) s.policy (stopped http s result)
  stopped-Parted s result sound = record {
    splits = append-nil (bytes s.buffer);
    sound = sound;
    heard = refl;
  }

  pub taken-Parted :
      (prefix left : Bytes) (p : ExchangePolicy) (t : HeadsReceived http)
      → Parted left (after_head http p (parse prefix)) t
      → Parted (prefix ++ left) p (with_taken http prefix t)
  taken-Parted prefix left p t parted = record {
    splits =
        append_assoc prefix left t.arrived
        ∙ ap (λ v. prefix ++ v) parted.splits
        ∙ sym (append_assoc prefix (joined t.taken) (bytes t.state.buffer));
    sound = parted.sound;
    heard = parted.heard;
  }

  pub arrived-Parted :
      (input more : Bytes) (p : ExchangePolicy) (t : HeadsReceived http)
      → Parted (input ++ more) p t
      → Parted input p (with_arrived http more t)
  arrived-Parted input more p t parted = record {
    splits = sym (append_assoc input more t.arrived) ∙ parted.splits;
    sound = parted.sound;
    heard = parted.heard;
  }

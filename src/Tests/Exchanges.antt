-- ===== src/Tests/Exchanges.antt =====
-- Exchanges: a final head, and what follows it.
use vakya.Prelude.{◌≤◌, ◌≡◌, refl, none, [], ok, err}
use vakya.Message.{plain_error, reusable, invalid_message}
use vakya.Http.{http_11}
use vakya.Head.Response.{ResponseHead}
use vakya.Exchange.{
  finished, reuse, final, ExchangePolicy, finish, new_policy, received_head, received_valid,
  received_plain, sent_final, receive_head,
}
use vakya.Exchange.Invariant.{Reaches, here, received, sent_last}
use vakya.Exchange.Count.{informs, let_through}
use vakya.Exchange.Ends.{Justified, Reaches-Justified, Reaches-one_head}
use vakya.Tests.Heads.{plain_http, validated}

abbrev pub policy : ExchangePolicy
policy = record {
  phase = final;
  persistence = reusable;
  method = validated.head.method;
  upgrade_asked = none;
  offered_protocols = [];
  informational = 1;
  max_informational = 2;
}

ended : finish policy finished finished ≡ ok reuse
unfolding finish
ended = refl

-- "HTTP/1.1 100" without fields
abbrev interim : ResponseHead plain_http
interim = record { version = http_11; status = 100; headers = λ name. [] }

pub settled : Reaches plain_http (new_policy plain_http validated 2) policy
unfolding new_policy sent_final receive_head received_head received_valid received_plain
    vakya.Head.Response.validate vakya.Head.Options.connection_options vakya.Head.for_each_value
    vakya.Head.Response.response_upgrade vakya.Head.Response.response_body
    vakya.Head.Response.bodiless
settled = received interim (sent_last reusable here)

Reaches-Justified_example :
    Justified none reusable finished finished reuse × (let_through plain_http settled ≤ 2)
Reaches-Justified_example =
    Reaches-Justified plain_http validated 2 policy finished finished reuse settled ended

one_went_through : let_through plain_http settled ≡ 1
unfolding let_through settled informs receive_head received_head received_valid received_plain
    vakya.Head.Response.validate vakya.Head.Options.connection_options vakya.Head.for_each_value
    vakya.Head.Response.response_upgrade vakya.Head.Response.response_body
    vakya.Head.Response.bodiless
one_went_through = refl

abbrev late : ResponseHead plain_http
late = record { version = http_11; status = 200; headers = validated.head.headers }

Reaches-one_head_example :
    (receive_head plain_http policy late ≡ (policy, err (plain_error invalid_message)))
    × (final ≡ final)
Reaches-one_head_example = Reaches-one_head plain_http policy policy late refl here

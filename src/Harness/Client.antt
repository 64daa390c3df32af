-- ===== src/Harness/Client.antt =====
-- doRequest of cmd/harness/client.go: the record of one request, for what became of it.
use ti_assignment_promise_th.Base.{true, false, string_eq, nat_beq}
use ti_assignment_promise_th.Ratelimit.Gcra.{Time}
use ti_assignment_promise_th.Httpapi.{Response}
use ti_assignment_promise_th.Harness.Analysis.{Record}

-- The request cannot be made, it gets no response, or the response of a node.
pub data Outcome : Type 0 where
  unmade unanswered : Outcome
  answered : Response → Outcome

unfoldable pub do_request : Time → Time → Outcome → Record
do_request sent_at received_at (answered r) = record {
  sent_at = sent_at;
  received_at = received_at;
  node_id = r.x_node_id;
  status_code = r.status;
  allowed = nat_beq r.status 200;
  failed = false;
}
do_request sent_at received_at _ = record {
  sent_at = sent_at;
  received_at = received_at;
  node_id = "";
  status_code = 0;
  allowed = false;
  failed = true;
}

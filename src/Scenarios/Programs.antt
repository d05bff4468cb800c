-- ===== src/Scenarios/Programs.antt =====
-- supvisors/application.py on an application of two processes, and supvisors/internal_com/mapper.py
-- on a network of one address.
use supvisors.Prelude.{Bool, not, ◌&&◌, List, [], ◌∷◌, Option, none, some, Name, ◌≡◌, refl, ◌==◌}
use supvisors.Prelude.Dict.{lookup}
use supvisors.Prelude.Dict.Values.{IsDict}
use supvisors.Application.Formula.{Expr, string, call, bool_op, and, no_expr, more, evaluate}
use supvisors.Application.Sequences.{update_sequences}
use supvisors.Application.Sequences.Exact.{AreExact, update_sequences-AreExact}
use supvisors.Application.Status.{update, failed}
use supvisors.Application.Status.Required.{
  some_process, state_by_processes, is_major, update-required,
}
use supvisors.Application.Status.Typing.{kind, type_of, evaluate-kind}
use supvisors.Mapper.Network.{LocalNetwork, serial, from_payload}
use supvisors.Mapper.RoundTrip.{Received, from_payload-serial}
use supvisors.Scenarios.{supervisor, application, network}

application-IsDict : IsDict application.processes
unfolding lookup
application-IsDict = (refl, (refl, tt))

update_sequences-AreExact_example : AreExact (update_sequences application)
update_sequences-AreExact_example = update_sequences-AreExact application application-IsDict

update-required_example :
    update supervisor (λ pattern. none) (update_sequences application)
    ≡ some (record (update_sequences application) {
      state = state_by_processes application.processes;
      major_failure = is_major application.processes;
      minor_failure =
          not (is_major application.processes)
          && application.rules.managed
          && some_process (λ p. not p.rules.required && failed p) application.processes;
    })
update-required_example = update-required supervisor (λ pattern. none) application refl

-- "cat" and all("d.*"), where the pattern fits the second process
abbrev formula : Expr
formula =
    bool_op and (more (string "cat") (more (call "all" (more (string "d.*") no_expr)) no_expr))

abbrev compile : Name → Option (Name → Bool)
compile pattern = some (λ name. name == "dog")

abbrev names : List Name
names = "cat" ∷ "dog" ∷ []

evaluate-kind_example :
    kind (evaluate compile names (λ name. name == "cat") formula) ≡ type_of compile names formula
evaluate-kind_example = evaluate-kind compile names (λ name. name == "cat") formula

abbrev ip_network : Name → Name → Option Name
ip_network address mask = some "10.0.0.0"

abbrev found : LocalNetwork
found = network "eth1" "machine_2" "10.0.0.2"

from_payload-serial_example :
    Received ip_network
      (network "eth0" "machine_1" "10.0.0.1")
      found
      (from_payload ip_network (serial (network "eth0" "machine_1" "10.0.0.1")) found)
unfolding lookup
from_payload-serial_example =
    from_payload-serial ip_network (network "eth0" "machine_1" "10.0.0.1") found
      (record { nic = _; present = refl; network = refl }, tt) (refl, tt)

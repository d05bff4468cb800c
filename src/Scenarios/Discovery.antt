-- ===== src/Scenarios/Discovery.antt =====
-- supvisors/internal_com/mapper.py on one instance that is added and identified.
use supvisors.Prelude.{List, [], ◌∷◌, Option, none, some, Name, ◌≡◌, refl}
use supvisors.Mapper.{SupvisorsMapper, new}
use supvisors.Mapper.Network.{serial}
use supvisors.Mapper.Identify.{add_instance, identify}
use supvisors.Mapper.Reach.{start, discovered, identified}
use supvisors.Mapper.Sound.{IsSound, Reach-IsSound}
use supvisors.Scenarios.{network}
use supvisors.Scenarios.Placement.{instance_id}

abbrev ip_network : Name → Name → Option Name
ip_network address mask = some "10.0.0.0"

abbrev gethostbyaddr : Name → Option (Name × List Name × List Name)
gethostbyaddr host = none

abbrev getfqdn : Name → Name
getfqdn name = name

abbrev or_new : Option SupvisorsMapper → SupvisorsMapper
or_new none = new (network "eth0" "m1" "a")
or_new (some m) = m

abbrev added : SupvisorsMapper
added = or_new (add_instance (some (instance_id "a" "m1")) (new (network "eth0" "m1" "a")))

abbrev known : SupvisorsMapper
known = or_new (
    identify ip_network gethostbyaddr getfqdn (network "eth0" "m1" "a") "a"
      (serial (network "eth0" "m1" "a")) ("fast" ∷ []) added)

is_added : add_instance (some (instance_id "a" "m1")) (new (network "eth0" "m1" "a")) ≡ some added
unfolding add_instance new
is_added = refl

is_known :
    identify ip_network gethostbyaddr getfqdn
      (network "eth0" "m1" "a")
      "a"
      (serial (network "eth0" "m1" "a"))
      ("fast" ∷ [])
      added
    ≡ some known
unfolding add_instance new identify serial
is_known = refl

Reach-IsSound_example : IsSound known
Reach-IsSound_example =
    Reach-IsSound ip_network gethostbyaddr getfqdn (network "eth0" "m1" "a")
      {configured = "supervisor"} {server_port = 25000}
      (identified "a" (serial (network "eth0" "m1" "a")) ("fast" ∷ [])
        (discovered (some (instance_id "a" "m1")) (start (network "eth0" "m1" "a")) is_added)
        is_known)

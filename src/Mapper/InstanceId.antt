-- ===== src/Mapper/InstanceId.antt =====
-- supvisors/internal_com/mapper.py: SupvisorsInstanceId.
use supvisors.Prelude.{
  ℕ, ◌+◌, Bool, true, false, not, ◌&&◌, List, [], ◌∷◌, Option, none, some, Name, ◌==◌, nat_beq,
  if◌then◌else◌,
}
use supvisors.Prelude.Dict.{values}
use supvisors.Mapper.Network.{
  NetworkAddress, LocalNetwork, NetworkPayload, new_address, host_matches, get_network_ip, serial,
}

-- DEFAULT_IDENTIFIER
abbrev pub default_identifier : Name
default_identifier = "supervisor"

pub record SupvisorsInstanceId : Type 0 where
  pub identifier : Name
  pub nick_identifier : Name
  pub host_id : Name
  pub http_port : ℕ
  pub event_port : ℕ
  pub user_nickname : Bool
  pub simple_address : NetworkAddress
  pub remote_view : Option LocalNetwork
  pub local_view : Option LocalNetwork
  pub stereotypes : List Name

pub record InstancePayload : Type 0 where
  pub identifier : Name
  pub nick_identifier : Name
  pub host_id : Name
  pub http_port : ℕ
  pub stereotypes : List Name
  pub network : Option NetworkPayload

-- What PATTERN finds in an item of `supvisors_list`: the groups `identifier`, `host`, `http_port`.
pub record Match : Type 0 where
  pub group_identifier : Option Name
  pub host : Name
  pub group_port : Option ℕ

-- `0` stands for the ports that Python takes for false.
abbrev port_or_zero : Option ℕ → ℕ
port_or_zero none = 0
port_or_zero (some p) = p

abbrev pub or_port : ℕ → ℕ → ℕ
or_port p q = if nat_beq p 0 then q else p

abbrev user_name : Option Name → Bool
user_name none = false
user_name (some n) = not (n == "") && not (n == default_identifier)

abbrev name_or : Option Name → Name → Name
name_or none default = default
name_or (some n) default = n

-- parse_from_string and check_values of an item that the pattern matches. `number` gives
-- f'{host_id}:{http_port}'; the two ports are the Supervisor's and the option `event_port`.
module _ (number : Name → ℕ → Name) (server_port event_port : ℕ) where
  unfoldable pub check_values : Match → NetworkAddress → SupvisorsInstanceId
  check_values m address =
      let own_port = port_or_zero m.group_port in
      let http_port = or_port own_port server_port in
      let identifier = number m.host http_port in
      record {
        identifier = identifier;
        nick_identifier =
            if user_name m.group_identifier
            then name_or m.group_identifier identifier
            else if nat_beq own_port 0
            then m.host
            else identifier;
        host_id = m.host;
        http_port = http_port;
        event_port = or_port event_port (http_port + 1);
        user_nickname = user_name m.group_identifier;
        simple_address = address;
        remote_view = none;
        local_view = none;
        stereotypes = [];
      }

  -- SupvisorsInstanceId(item, supvisors), `none` where no host is found in the item
  unfoldable pub new :
      (Name → Option Match)
      → (Name → Option (Name × List Name × List Name))
      → Name
      → Option SupvisorsInstanceId
  unfolding check_values new_address
  new match gethostbyaddr item = elim (match item) [
    | none ↦ none
    | some m ↦ some (check_values m (new_address gethostbyaddr none m.host))
  ]

unfoldable pub ip_address : SupvisorsInstanceId → Option Name
ip_address i = elim i.simple_address.ipv4_addresses [ [] ↦ none | ip ∷ _ ↦ some ip ]

-- is_valid(ipv4_address)
unfoldable pub is_valid : Name → ℕ → SupvisorsInstanceId → Bool
unfolding host_matches
is_valid ip http_port i =
    nat_beq i.http_port http_port
    && elim i.local_view [ none ↦ true | some view ↦ host_matches ip view ]

-- The address of `local_view` in the network, empty where there is none.
unfoldable pub view_ip : Option Name → Option LocalNetwork → Name
unfolding get_network_ip values
view_ip (some address) (some view) =
    if address == "" then "" else get_network_ip address (values view.addresses)
view_ip _ _ = ""

-- SupvisorsInstanceId.get_network_ip(network_address)
unfoldable pub get_instance_ip : Option Name → SupvisorsInstanceId → Name
unfolding view_ip
get_instance_ip network i =
    let ip = view_ip network i.local_view in if ip == "" then i.host_id else ip

-- serial(with_network)
unfoldable pub instance_serial : Bool → SupvisorsInstanceId → InstancePayload
unfolding serial
instance_serial with_network i = record {
  identifier = i.identifier;
  nick_identifier = i.nick_identifier;
  host_id = i.host_id;
  http_port = i.http_port;
  stereotypes = i.stereotypes;
  network = elim i.local_view [
    | none ↦ none
    | some view ↦ if with_network then some (serial view) else none
  ];
}

-- ===== src/Mapper/Network.antt =====
-- supvisors/internal_com/mapper.py: NicInformation, NetworkAddress and LocalNetwork. The answers of
-- Python's `socket`, `uuid` and `ipaddress` are parameters; `none` is an exception.
use supvisors.Prelude.{
  Bool, false, List, [], ◌∷◌, ◌++◌, Option, none, some, Name, ◌==◌, any, if◌then◌else◌,
}
use supvisors.Prelude.Dict.{Dict, insert, values}
use supvisors.Prelude.NameSet.{contains}

pub record NicInformation : Type 0 where
  pub nic_name : Name
  pub ipv4_address : Name
  pub netmask : Name
  pub network_address : Name

-- The keyword arguments of NicInformation, as `serial` writes them.
pub record NicPayload : Type 0 where
  pub nic_name : Name
  pub ipv4_address : Name
  pub netmask : Name

pub record NetworkAddress : Type 0 where
  pub host_name : Name
  pub aliases : List Name
  pub ipv4_addresses : List Name
  pub nic_info : Option NicInformation

pub record AddressPayload : Type 0 where
  pub host_name : Name
  pub aliases : List Name
  pub ipv4_addresses : List Name
  pub nic_info : Option NicPayload

pub record LocalNetwork : Type 0 where
  pub machine_id : Name
  pub fqdn : Name
  pub addresses : Dict NetworkAddress

pub record NetworkPayload : Type 0 where
  pub machine_id : Name
  pub fqdn : Name
  pub addresses : Dict AddressPayload

unfoldable pub nic_serial : NicInformation → NicPayload
nic_serial nic = record {
  nic_name = nic.nic_name;
  ipv4_address = nic.ipv4_address;
  netmask = nic.netmask;
}

-- NetworkAddress.serial
unfoldable pub address_serial : NetworkAddress → AddressPayload
unfolding nic_serial
address_serial a = record {
  host_name = a.host_name;
  aliases = a.aliases;
  ipv4_addresses = a.ipv4_addresses;
  nic_info = elim a.nic_info [ none ↦ none | some nic ↦ some (nic_serial nic) ];
}

unfoldable pub addresses_serial : Dict NetworkAddress → Dict AddressPayload
unfolding address_serial
addresses_serial [] = []
addresses_serial ((k, a) ∷ d) = (k, address_serial a) ∷ addresses_serial d

-- LocalNetwork.serial
unfoldable pub serial : LocalNetwork → NetworkPayload
unfolding addresses_serial
serial n = record {
  machine_id = n.machine_id;
  fqdn = n.fqdn;
  addresses = addresses_serial n.addresses;
}

-- `ip_network` is the network address that `ipaddress` finds, with its ValueError.
module _ (ip_network : Name → Name → Option Name) where
  -- NicInformation(nic_name, ipv4_address, netmask)
  unfoldable pub new_nic : NicPayload → Option NicInformation
  new_nic p = elim (ip_network p.ipv4_address p.netmask) [
    | none ↦ none
    | some network ↦ some (record {
      nic_name = p.nic_name;
      ipv4_address = p.ipv4_address;
      netmask = p.netmask;
      network_address = network;
    })
  ]

  -- NetworkAddress.from_payload: `**None` is a TypeError
  unfoldable pub address_from_payload : AddressPayload → Option NetworkAddress
  unfolding new_nic
  address_from_payload p = elim p.nic_info [
    | none ↦ none
    | some nic_payload ↦ elim (new_nic nic_payload) [
      | none ↦ none
      | some nic ↦ some (record {
        host_name = p.host_name;
        aliases = p.aliases;
        ipv4_addresses = p.ipv4_addresses;
        nic_info = some nic;
      })
    ]
  ]

  -- The loop of `from_payload`, from the addresses that the network has already.
  unfoldable pub read_addresses :
      Dict AddressPayload → Dict NetworkAddress → Option (Dict NetworkAddress)
  unfolding address_from_payload insert
  read_addresses [] addresses = some addresses
  read_addresses ((k, p) ∷ d) addresses = elim (address_from_payload p) [
    | none ↦ none
    | some a ↦ read_addresses d (insert k a addresses)
  ]

  -- LocalNetwork.from_payload
  unfoldable pub from_payload : NetworkPayload → LocalNetwork → Option LocalNetwork
  unfolding read_addresses
  from_payload p n = elim (read_addresses p.addresses n.addresses) [
    | none ↦ none
    | some addresses ↦
        some (record n { machine_id = p.machine_id; fqdn = p.fqdn; addresses = addresses })
  ]

unfoldable pub empty_address : NetworkAddress
empty_address = record { host_name = ""; aliases = []; ipv4_addresses = []; nic_info = none }

-- `gethostbyaddr` is that of `socket`, `none` for the errors that _get_local_view catches.
module _ (gethostbyaddr : Name → Option (Name × List Name × List Name)) where
  -- NetworkAddress(logger, nic_info, host_id) with _get_local_view
  unfoldable pub new_address : Option NicInformation → Name → NetworkAddress
  new_address nic_info host_id = elim (gethostbyaddr host_id) [
    | none ↦ record { host_name = ""; aliases = []; ipv4_addresses = []; nic_info = nic_info }
    | some (host_name, aliases, ipv4_addresses) ↦ record {
      host_name = host_name;
      aliases = aliases;
      ipv4_addresses = ipv4_addresses;
      nic_info = nic_info;
    }
  ]

  unfoldable pub view_of : NetworkAddress → NetworkAddress
  unfolding new_address empty_address
  view_of a = elim a.nic_info [
    | none ↦ empty_address
    | some nic ↦ new_address (some nic) nic.ipv4_address
  ]

  unfoldable pub views : Dict NetworkAddress → Dict NetworkAddress
  unfolding view_of
  views [] = []
  views ((k, a) ∷ d) = (k, view_of a) ∷ views d

  unfoldable pub from_network : (Name → Name) → LocalNetwork → LocalNetwork → LocalNetwork
  unfolding views
  from_network getfqdn network n = record n {
    machine_id = network.machine_id;
    fqdn = getfqdn network.fqdn;
    addresses = views network.addresses;
  }

-- NetworkAddress.host_matches
unfoldable pub address_matches : Name → NetworkAddress → Bool
unfolding contains
address_matches host_id a = contains host_id ((a.host_name ∷ a.aliases) ++ a.ipv4_addresses)

unfoldable pub ip_matches : Name → NetworkAddress → Bool
ip_matches ip a = elim a.nic_info [ none ↦ false | some nic ↦ ip == nic.ipv4_address ]

unfoldable pub name_matches : Name → NetworkAddress → Bool
unfolding contains
name_matches host_name a = elim a.nic_info [
  | none ↦ false
  | some nic ↦ contains host_name (a.host_name ∷ a.aliases)
]

-- LocalNetwork.host_matches
unfoldable pub host_matches : Name → LocalNetwork → Bool
unfolding address_matches values
host_matches host_id n = any (address_matches host_id) (values n.addresses)

-- The network address of the first interface that passes the test, `none` without one.
unfoldable pub first_network : (NetworkAddress → Bool) → List NetworkAddress → Option Name
first_network test [] = none
first_network test (a ∷ rest) =
    let later = first_network test rest in
    if test a then elim a.nic_info [ none ↦ later | some nic ↦ some nic.network_address ] else later

-- LocalNetwork.get_network_address(host_id)
unfoldable pub get_network_address : Name → LocalNetwork → Name
unfolding first_network ip_matches name_matches values
get_network_address host_id n = elim (first_network (ip_matches host_id) (values n.addresses)) [
  | some network ↦ network
  | none ↦ elim (first_network (name_matches host_id) (values n.addresses)) [
    | some network ↦ network
    | none ↦ ""
  ]
]

-- NetworkAddress.get_network_ip(network_address)
unfoldable pub address_network_ip : Name → NetworkAddress → Name
address_network_ip network a = elim a.nic_info [
  | none ↦ ""
  | some nic ↦ if nic.network_address == network then nic.ipv4_address else ""
]

-- LocalNetwork.get_network_ip(network_address)
unfoldable pub get_network_ip : Name → List NetworkAddress → Name
unfolding address_network_ip
get_network_ip network [] = ""
get_network_ip network (a ∷ rest) =
    let later = get_network_ip network rest in
    let ip = address_network_ip network a in if ip == "" then later else ip

-- ===== src/Mapper/RoundTrip.antt =====
-- supvisors/internal_com/mapper.py: a network that is sent with `serial` and read with `from_payload`.
use supvisors.Prelude.{
  ◌≡◌, refl, ap, [], ◌∷◌, Option, none, some, Name, ◌==◌, name_iff, arith, if◌then◌else◌,
}
use supvisors.Prelude.Dict.{Dict, lookup, insert, lookup-insert}
use supvisors.Prelude.Dict.Values.{IsDict}
use supvisors.Mapper.Network.{
  NicInformation, NetworkAddress, LocalNetwork, nic_serial, address_serial, addresses_serial,
  serial, new_nic, address_from_payload, read_addresses, from_payload,
}

abbrev pub or_else : Option NetworkAddress → Option NetworkAddress → Option NetworkAddress
or_else none d = d
or_else (some a) d = some a

module _ (ip_network : Name → Name → Option Name) where
  -- An address with the interface it stands for, as get_network_info finds them.
  pub record IsNic (a : NetworkAddress) : Type 0 where
    pub nic : NicInformation
    pub present : a.nic_info ≡ some nic
    pub network : ip_network nic.ipv4_address nic.netmask ≡ some nic.network_address

  abbrev pub AreNics : Dict NetworkAddress → Type 0
  AreNics [] = Unit
  AreNics ((k, a) ∷ d) = IsNic a × AreNics d

  address_round :
      (a : NetworkAddress) → IsNic a → address_from_payload ip_network (address_serial a) ≡ some a
  unfolding address_from_payload address_serial new_nic nic_serial
  address_round a h = rw (h.present, h.network) refl

  -- What the receiver ends with: the sender's addresses over its own.
  pub record Received (n found : LocalNetwork) (result : Option LocalNetwork) : Type 0 where
    pub received : LocalNetwork
    pub returned : result ≡ some received
    pub same_machine : received.machine_id ≡ n.machine_id
    pub same_fqdn : received.fqdn ≡ n.fqdn
    pub over :
        (k : Name)
        → lookup k received.addresses ≡ or_else (lookup k n.addresses) (lookup k found.addresses)

  reads :
      (d : Dict NetworkAddress) (found : Dict NetworkAddress)
      → AreNics d
      → IsDict d
      → (m : Dict NetworkAddress) × (read_addresses ip_network (addresses_serial d) found ≡ some m)
        × ((k : Name) → lookup k m ≡ or_else (lookup k d) (lookup k found))
  unfolding read_addresses addresses_serial lookup
  reads [] found h i = (found, refl, λ k. refl)
  reads ((j, a) ∷ d) found h i =
      let (m, e, f) = reads d (insert j a found) h.1 i.1 in
      (m, rw (address_round a h.0) e, over m f)
    where
      over :
          (m : Dict NetworkAddress)
          → ((k : Name) → lookup k m ≡ or_else (lookup k d) (lookup k (insert j a found)))
          → (k : Name)
          → lookup k m ≡ or_else (if j == k then some a else lookup k d) (lookup k found)
      over m f k =
          ground (arith, f k, lookup-insert j k a found, name_iff j k, i.0, ap (λ n. lookup n d))

  -- A network whose addresses have their interfaces, each interface once, is read back from what
  -- serial writes: the machine, the name and the addresses are the sender's, except that an
  -- interface that only the receiving network has keeps the address that it has there.
  pub from_payload-serial :
      (n found : LocalNetwork)
      → AreNics n.addresses
      → IsDict n.addresses
      → Received n found (from_payload ip_network (serial n) found)
  unfolding from_payload serial
  from_payload-serial n found h i =
      let (m, e, f) = reads n.addresses found.addresses h i in
      record {
        received = record found { machine_id = n.machine_id; fqdn = n.fqdn; addresses = m };
        returned = rw (e, from_payload) refl;
        same_machine = refl;
        same_fqdn = refl;
        over = f;
      }

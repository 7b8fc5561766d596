-- ===== src/Udp/Endpoint.antt =====
-- `get_local_endpoint` of src/udp_connections.cpp: the address that the socket for the packets is bound
-- to. The interfaces of the system and the answer of the resolver are parameters, in their order.
use aog_task_controller.Prelude.{
  ℕ, ◌≡◌, refl, ◌⊎◌, inl, inr, Bool, true, false, ◌&&◌, List, [], ◌∷◌, Option, none, some, arith,
  ◌==◌, if◌then◌else◌, Bool-cases,
}
use aog_task_controller.Udp.Detection.{Subnet}

-- The four octets of an IPv4 address.
pub record Address : Type 0 where
  pub octet_0 : ℕ
  pub octet_1 : ℕ
  pub octet_2 : ℕ
  pub octet_3 : ℕ

abbrev pub loopback : Address
loopback = record { octet_0 = 127; octet_1 = 0; octet_2 = 0; octet_3 = 1 }

-- `std::equal` on the first three octets.
unfoldable pub matches : Subnet → Address → Bool
matches subnet a = a.octet_0 == subnet.ip_0 && a.octet_1 == subnet.ip_1 && a.octet_2 == subnet.ip_2

-- An entry is `none` if it has no address or one that is not of IPv4.
unfoldable pub first_match : Subnet → List (Option Address) → Option Address
unfolding matches
first_match subnet [] = none
first_match subnet (none ∷ rest) = first_match subnet rest
first_match subnet (some a ∷ rest) =
    let later = first_match subnet rest in if matches subnet a then some a else later

-- The list of a call that can fail.
abbrev pub listed : Option (List (Option Address)) → List (Option Address)
listed none = []
listed (some entries) = entries

-- `interfaces` is `none` if `getifaddrs` fails, and `resolved` is `none` if the resolver throws.
unfoldable pub get_local_endpoint :
    Subnet → Option (List (Option Address)) → Option (List (Option Address)) → Address
unfolding first_match
get_local_endpoint subnet interfaces resolved = elim (first_match subnet (listed interfaces)) [
  | some a ↦ a
  | none ↦ elim (first_match subnet (listed resolved)) [ some a ↦ a | none ↦ loopback ]
]

-- The address is in the subnet: its first three octets are those of the subnet.
abbrev pub InSubnet : Subnet → Address → Type 0
InSubnet subnet a =
    (a.octet_0 ≡ subnet.ip_0) × (a.octet_1 ≡ subnet.ip_1) × (a.octet_2 ≡ subnet.ip_2)

-- An address is one of the entries of a list.
abbrev pub Listed : Address → List (Option Address) → Type 0
Listed a [] = ⊥
Listed a (none ∷ rest) = Listed a rest
Listed a (some b ∷ rest) = (b ≡ a) ⊎ Listed a rest

-- No entry of a list is in the subnet.
abbrev pub NoneIn : Subnet → List (Option Address) → Type 0
NoneIn subnet [] = Unit {0}
NoneIn subnet (none ∷ rest) = NoneIn subnet rest
NoneIn subnet (some a ∷ rest) = (¬ InSubnet subnet a) × NoneIn subnet rest

-- What a search of a list finds.
abbrev Found : Subnet → List (Option Address) → Option Address → Type 0
Found subnet entries none = NoneIn subnet entries
Found subnet entries (some a) = InSubnet subnet a × Listed a entries

matches-InSubnet : (subnet : Subnet) (a : Address) → matches subnet a ≡ true → InSubnet subnet a
unfolding matches
matches-InSubnet subnet a h = (ground (arith, h), ground (arith, h), ground (arith, h))

matches-not_InSubnet :
    (subnet : Subnet) (a : Address) → matches subnet a ≡ false → ¬ InSubnet subnet a
unfolding matches
matches-not_InSubnet subnet a h (e, f, g) = ground (arith, h, e, f, g)

Found-later :
    (subnet : Subnet) (a : Address) (rest : List (Option Address)) (r : Option Address)
    → ¬ InSubnet subnet a
    → Found subnet rest r
    → Found subnet (some a ∷ rest) r
Found-later subnet a rest none apart h = (apart, h)
Found-later subnet a rest (some b) apart (h, there) = (h, inr there)

Found-past :
    (subnet : Subnet) (rest : List (Option Address)) (r : Option Address)
    → Found subnet rest r
    → Found subnet (none ∷ rest) r
Found-past subnet rest none h = h
Found-past subnet rest (some b) h = h

first_match-Found :
    (subnet : Subnet) (entries : List (Option Address))
    → Found subnet entries (first_match subnet entries)
unfolding first_match
first_match-Found subnet [] = tt
first_match-Found subnet (none ∷ rest) =
    Found-past subnet rest (first_match subnet rest) (first_match-Found subnet rest)
first_match-Found subnet (some a ∷ rest) = elim (Bool-cases (matches subnet a)) [
  | inl fits ↦ rw fits (matches-InSubnet subnet a fits, inl refl)
  | inr apart ↦ rw apart (
      Found-later subnet a rest (first_match subnet rest) (matches-not_InSubnet subnet a apart)
        (first_match-Found subnet rest))
]

-- The address that is bound to: one of those listed, in the subnet; or the loopback address, and then
-- none that is listed is in the subnet.
abbrev pub IsEndpoint : Subnet → List (Option Address) → List (Option Address) → Address → Type 0
IsEndpoint subnet first second a =
    (InSubnet subnet a × (Listed a first ⊎ Listed a second))
    ⊎ ((a ≡ loopback) × (NoneIn subnet first × NoneIn subnet second))

chosen :
    (subnet : Subnet) (first second : List (Option Address)) (a b : Option Address)
    → Found subnet first a
    → Found subnet second b
    → IsEndpoint subnet first second
        (elim a [ some x ↦ x | none ↦ elim b [ some y ↦ y | none ↦ loopback ] ])
chosen subnet first second (some x) b (h, there) k = inl (h, inl there)
chosen subnet first second none (some y) h (k, there) = inl (k, inr there)
chosen subnet first second none none h k = inr (refl, (h, k))

-- If an interface or an answer of the resolver has an address whose first three octets are those of
-- the subnet in the settings, then the socket is bound to such an address, one of those listed;
-- otherwise, also if both calls fail, to the loopback address.
pub get_local_endpoint-IsEndpoint :
    (subnet : Subnet) (interfaces resolved : Option (List (Option Address)))
    → IsEndpoint subnet
        (listed interfaces)
        (listed resolved)
        (get_local_endpoint subnet interfaces resolved)
unfolding get_local_endpoint
get_local_endpoint-IsEndpoint subnet interfaces resolved =
    chosen subnet (listed interfaces) (listed resolved) (first_match subnet (listed interfaces))
      (first_match subnet (listed resolved)) (first_match-Found subnet (listed interfaces))
      (first_match-Found subnet (listed resolved))

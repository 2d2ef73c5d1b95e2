-- ===== src/Versions/Network.antt =====
-- `_derive_network_vars` of component_versions.py: the pool of the load balancer and the gateway, from
-- the subnet that `ipaddress.ip_network` makes of HPDC_SUBNET. An address is its number.
use hpa_with_bmad.Base.{
  List, lookup, strip, ◌==◌, string_eq, ℕ, ◌+◌, ◌-◌, ◌*◌, ◌/◌, ◌%◌, ◌^◌, ◌≤◌, String, Option, none,
  some, ◌≡◌, if◌then◌else◌, ltb, leb, decimal, ◌+++◌,
}
use hpa_with_bmad.Regex.{is_space}
use hpa_with_bmad.Versions.{Environ, setdefault, load_dotenv}

-- An IPv4 network: its first address, and the length of its prefix.
pub record Network : Type 0 where
  pub address : ℕ
  pub prefixlen : ℕ

abbrev pub num_addresses : ℕ → ℕ
num_addresses prefixlen = 2 ^ (32 - prefixlen)

-- What `ip_network(..., strict=False)` gives: the address is masked.
abbrev pub masked : ℕ → ℕ → Network
masked start prefixlen = record {
  address = start / num_addresses prefixlen * num_addresses prefixlen;
  prefixlen = prefixlen;
}

-- `max(subnet.prefixlen, 28)`
unfoldable pub pool_prefix : Network → ℕ
pool_prefix subnet = if ltb subnet.prefixlen 28 then 28 else subnet.prefixlen

unfoldable pub pool : Network → Network
unfolding pool_prefix
pool subnet =
    masked (subnet.address + num_addresses subnet.prefixlen - num_addresses (pool_prefix subnet))
      (pool_prefix subnet)

unfoldable pub gateway : Network → ℕ
unfolding pool
gateway subnet = (pool subnet).address + 1

-- `str` of an address
unfoldable pub dotted : ℕ → String
dotted a =
    decimal (a / 2 ^ 24)
    +++ "."
    +++ decimal (a / 2 ^ 16 % 256)
    +++ "."
    +++ decimal (a / 2 ^ 8 % 256)
    +++ "."
    +++ decimal (a % 256)

-- The end of `_derive_network_vars`; `none` is the error of an address beyond 255.255.255.255.
unfoldable pub derive : Network → Environ → Option Environ
unfolding gateway pool dotted
derive subnet env =
    if leb (2 ^ 32) (gateway subnet)
    then none
    else some (
        setdefault "HPDC_GATEWAY_IP" (dotted (gateway subnet)) (
          setdefault "HPDC_CILIUM_LB_POOL_RANGE"
            (dotted (pool subnet).address +++ "/" +++ decimal (pool subnet).prefixlen) env))

-- `_derive_network_vars`, where `none` is an HPDC_SUBNET that is empty or that does not parse
unfoldable pub derive_network_vars : Option Network → Environ → Option Environ
derive_network_vars none env = some env
derive_network_vars (some subnet) env = derive subnet env

-- `load_all_dotenv` on the lines of its three files, for what `ip_network` makes of a text
unfoldable pub load_all_dotenv :
    (String → Option Network) → List (Option (List String)) → Environ → Option Environ
load_all_dotenv ip_network files env =
    let loaded = load_dotenv files env in
    elim (lookup "HPDC_SUBNET" loaded) [
      | none ↦ derive_network_vars none loaded
      | some s ↦
          let subnet = strip is_space s in
          derive_network_vars (if subnet == "" then none else ip_network subnet) loaded
    ]

-- A network whose address is a multiple of its size, below 2 ^ 32.
pub record IsNetwork (n : Network) : Type 0 where
  pub short : n.prefixlen ≤ 32
  pub aligned : n.address % num_addresses n.prefixlen ≡ 0
  pub within : n.address + num_addresses n.prefixlen ≤ 2 ^ 32

prefix_of : ℕ → ℕ
prefix_of p = if ltb p 28 then 28 else p

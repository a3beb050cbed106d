-- ===== src/Addresses.antt =====
-- `AddressTable` of core/execution.py, with texts as node ids.
use graphed.Prelude.{ℕ, String, ◌≡◌, ◌≢◌, refl, Option, none, some, List}
use graphed.Prelude.Text.{repr}
use graphed.Prelude.Dict.{find, set, find-set, find-set_ne}
use graphed.Outcome.{exception, plain, Outcome, returns, raises}

pub record AddressTable : Type 0 where
  pub addresses : List (String × (String × ℕ))
  pub provenance : List (String × String)

-- `AddressTable.register`
unfoldable pub register : String → String → ℕ → String → AddressTable → AddressTable
register node_id host port by table = record {
  addresses = set node_id (host, port) table.addresses;
  provenance = set node_id by table.provenance;
}

-- `d[key]`
abbrev at_key : {A : Type 0} → String → Option A → Outcome A
at_key key none = raises (exception (plain "KeyError" (repr key)))
at_key key (some a) = returns a

-- `AddressTable.lookup`
unfoldable pub lookup : AddressTable → String → Outcome (String × ℕ)
lookup table node_id = at_key node_id (find node_id table.addresses)

-- `AddressTable.registered_by`
unfoldable pub registered_by : AddressTable → String → Outcome String
registered_by table node_id = at_key node_id (find node_id table.provenance)

-- After a node is registered, its address and who announced it are the ones registered, whatever
-- the table said of it before, and both are unchanged for every other node.
pub lookup-register :
    (node_id host : String) (port : ℕ) (by : String) (table : AddressTable)
    → let table' = register node_id host port by table in
      (lookup table' node_id ≡ returns (host, port))
      × (registered_by table' node_id ≡ returns by)
      × ((other : String)
          → other ≢ node_id
          → (lookup table' other ≡ lookup table other)
            × (registered_by table' other ≡ registered_by table other))
unfolding register lookup registered_by
lookup-register node_id host port by table = (
  rw (find-set node_id (host, port) table.addresses) refl,
  rw (find-set node_id by table.provenance) refl,
  λ other ne. (
    rw (find-set_ne other node_id (host, port) table.addresses ne) refl,
    rw (find-set_ne other node_id by table.provenance ne) refl,
  ),
)

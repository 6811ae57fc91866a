-- ===== src/Upgrade.antt =====
-- The registry of protocols of src/uvhttp_protocol_upgrade.c that a connection can be upgraded to.
-- The detector and the handler of a protocol, and the data for them, are a number.
pub mod Registered
mod Tests
use uvhttp.Prelude.{
  ℕ, ◌+◌, ◌-◌, Bool, true, false, ◌||◌, List, [], ◌∷◌, Option, none, some, if◌then◌else◌, leb,
  length, take, caseeq, lower_all,
}
use uvhttp.Error.{invalid_param, not_found, already_exists, Result, ok, err}

-- `uvhttp_protocol_info_t`
pub record Protocol : Type 0 where
  pub name : List ℕ
  pub upgrade_header : List ℕ
  pub functions : ℕ

-- `uvhttp_protocol_registry_t`
pub record Registry : Type 0 where
  pub protocols : List Protocol
  pub protocol_count : ℕ

-- The loop that looks for a protocol of that name, whatever the case of its letters.
unfoldable pub is_registered : List ℕ → List Protocol → Bool
is_registered name [] = false
is_registered name (p ∷ ps) = caseeq p.name name || is_registered name ps

-- No header counts as an empty one; both texts are kept in lower case.
abbrev pub protocol_of : List ℕ → Option (List ℕ) → ℕ → Protocol
protocol_of name none functions = record {
  name = take 31 (lower_all name);
  upgrade_header = [];
  functions = functions;
}
protocol_of name (some header) functions = record {
  name = take 31 (lower_all name);
  upgrade_header = take 63 (lower_all header);
  functions = functions;
}

abbrev pub header_too_long : Option (List ℕ) → Bool
header_too_long none = false
header_too_long (some header) = leb 64 (length header)

-- The registry, which is made when the first protocol is registered.
abbrev pub registry_of : Option Registry → Registry
registry_of none = record { protocols = []; protocol_count = 0 }
registry_of (some g) = g

abbrev pub register_in :
    Registry → List ℕ → Option (List ℕ) → ℕ → Option Registry × Result (Unit {0})
register_in g name header functions =
    if is_registered name g.protocols
    then (some g, err already_exists)
    else if leb 10 g.protocol_count
    then (some g, err invalid_param)
    else (
      some (record {
        protocols = protocol_of name header functions ∷ g.protocols;
        protocol_count = g.protocol_count + 1;
      }),
      ok tt,
    )

-- `uvhttp_server_register_protocol_upgrade`
unfoldable pub register_protocol :
    Option Registry → List ℕ → Option (List ℕ) → ℕ → Option Registry × Result (Unit {0})
register_protocol g name header functions =
    if leb 32 (length name)
    then (g, err invalid_param)
    else if header_too_long header
    then (g, err invalid_param)
    else register_in (registry_of g) name header functions

-- The loop that takes the first protocol of a name out of the list, or `none`.
unfoldable pub remove_protocol : List ℕ → List Protocol → Option (List Protocol)
remove_protocol name [] = none
remove_protocol name (p ∷ ps) =
    let later : Option (List Protocol) = elim (remove_protocol name ps) [
      | none ↦ none
      | some rest ↦ some (p ∷ rest)
    ] in
    if caseeq p.name name then some ps else later

abbrev pub after_remove : Registry → Option (List Protocol) → Option Registry × Result (Unit {0})
after_remove g none = (some g, err not_found)
after_remove g (some ps) =
    (some (record { protocols = ps; protocol_count = g.protocol_count - 1 }), ok tt)

-- `uvhttp_server_unregister_protocol_upgrade`
unfoldable pub unregister_protocol : Option Registry → List ℕ → Option Registry × Result (Unit {0})
unregister_protocol none name = (none, err not_found)
unregister_protocol (some g) name = after_remove g (remove_protocol name g.protocols)

-- ===== src/Upgrade/Tests.antt =====
-- A run of the registry of src/uvhttp_protocol_upgrade.c, and the theorem on it.
use uvhttp.Prelude.{[], ◌∷◌, none, some, ◌≡◌, refl, codes, arith, caseeq}
use uvhttp.Error.{ok, err, already_exists}
use uvhttp.Upgrade.{Registry, register_protocol, is_registered}
use uvhttp.Upgrade.Registered.{IsRegistry, Registers, register_protocol-Registers}

-- A registry with a protocol.
abbrev one : Registry
one = record {
  protocols =
      record { name = codes "websocket"; upgrade_header = codes "websocket"; functions = 1 } ∷ [];
  protocol_count = 1;
}

registers_one :
    register_protocol none (codes "WebSocket") (some (codes "WebSocket")) 1 ≡ (some one, ok tt)
unfolding register_protocol is_registered
registers_one = refl

one-IsRegistry : IsRegistry one
unfolding is_registered
one-IsRegistry = record { counted = refl; few = omega arith; different = (refl, tt) }

register_protocol-Registers_example :
    Registers one
      (codes "Chat")
      (some (codes "chat/1"))
      2
      (register_protocol (some one) (codes "Chat") (some (codes "chat/1")) 2)
register_protocol-Registers_example =
    register_protocol-Registers one (codes "Chat") (some (codes "chat/1")) 2 one-IsRegistry

refuses_one :
    register_protocol (some one) (codes "WEBSOCKET") none 3 ≡ (some one, err already_exists)
unfolding register_protocol is_registered caseeq
refuses_one = refl

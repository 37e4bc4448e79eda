-- ===== src/Access/Tenant.antt =====
-- Tenants are kept apart: server/internal/roomengine/authorization.go.
use open_rtc.Base.{
  String, ◌≡◌, ◌≢◌, ◌∙◌, ap, true, Option, some, arith, ◌==◌, eq_refl, append, has_prefix_iff,
  append_assoc_text,
}
use open_rtc.Access.Claims.{Claims, allows, in_tenant}
use open_rtc.Access.Rooms.{RoomAuthorizationOptions, RoomGetter, separator_of, allows_room_action}

in_tenant-prefix :
    (c : Claims) (room separator : String)
    → in_tenant c room separator ≡ true
    → (c.tenant ≢ "") × (rest : String) × (room ≡ append c.tenant (append separator rest))
unfolding in_tenant
in_tenant-prefix c room separator h =
    let (rest, e) = has_prefix_iff room (append c.tenant separator) (ground arith) in
    (
      (λ p. ground (arith, eq_refl "", ap (λ (t : String). t == "") p)),
      rest,
      e ∙ append_assoc_text c.tenant separator rest,
    )

allows-in_tenant :
    (c : Claims) (action room separator : String)
    → allows c action room true separator ≡ true
    → in_tenant c room separator ≡ true
unfolding allows
allows-in_tenant c action room separator h = ground arith

allowed_in_tenant :
    (c : Claims) (store : Option RoomGetter) (action room : String)
    (options : RoomAuthorizationOptions)
    → options.enforce_tenant_prefix ≡ true
    → allows_room_action (some c) store action room options ≡ true
    → in_tenant c room (separator_of options) ≡ true
unfolding allows_room_action
allowed_in_tenant c store action room options e h =
    ground (arith, allows-in_tenant c action room (separator_of options))

-- Where the tenant prefix is enforced, whatever a token or a room's record grants, an action is allowed
-- only in rooms whose name is the token's tenant, which is not empty, the separator and a rest.
pub allows_room_action-tenant :
    (c : Claims) (store : Option RoomGetter) (action room : String)
    (options : RoomAuthorizationOptions)
    → options.enforce_tenant_prefix ≡ true
    → allows_room_action (some c) store action room options ≡ true
    → (c.tenant ≢ "")
      × (rest : String) × (room ≡ append c.tenant (append (separator_of options) rest))
allows_room_action-tenant c store action room options e h =
    in_tenant-prefix c room (separator_of options)
      (allowed_in_tenant c store action room options e h)

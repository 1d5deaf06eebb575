-- ===== src/Server/Hooks.antt =====
-- The routes of services/gateway/internal/server/server.go for webhooks, over the registrations of
-- Webhook/Registry. The JSON of a registration is its identifier and its url, without the secret.
use chain_forge.Common.{ℕ, ltb, if◌then◌else◌, List, length, map, Option, none, some, String}
use chain_forge.Webhook.{Registration}
use chain_forge.Webhook.Registry.{Net, Registry, register, remove, list}

pub record HookJson : Type 0 where
  pub id : List ℕ
  pub url : String

unfoldable pub hook_json : Registration → HookJson
hook_json r = record { id = r.id; url = r.url }

pub data HookBody : Type 0 where
  webhooks : List HookJson → HookBody
  added : HookJson → HookBody
  bad_hook bad_url no_hook no_content : HookBody

pub record HookReply : Type 0 where
  pub status : ℕ
  pub body : HookBody

-- On the values of the map in the order of its range.
unfoldable pub list_hooks : List Registration → HookReply
list_hooks order = record { status = 200; body = webhooks (map hook_json (list order)) }

unfoldable pub added_reply : Option Registration → HookReply
added_reply none = record { status = 422; body = bad_url }
added_reply (some r) = record { status = 201; body = added (hook_json r) }

-- On the url and the secret of the body, none if it does not decode.
unfoldable pub add_hook : Net → Registry → Option (String × List ℕ) → HookReply × Registry
add_hook net d none = (record { status = 400; body = bad_hook }, d)
add_hook net d (some (url, secret)) =
    let (r, d') = register net d url secret in
    if ltb (length secret) 16
    then (record { status = 400; body = bad_hook }, d)
    else (added_reply r, d')

unfoldable pub del_hook : Registry → List ℕ → HookReply × Registry
del_hook d id =
    let (found, d') = remove d id in
    (
      if found
          then record { status = 204; body = no_content }
          else record { status = 404; body = no_hook },
      d',
    )

-- ===== src/Webhook/Registry/Tests.antt =====
-- Registrations, removals and a delivery, and the theorems there.
use chain_forge.Common.{
  ℕ, ◌+◌, ◌<◌, ◌≤◌, ◌≡◌, refl, arith, Bool, true, false, str_eq, if◌then◌else◌,
}
use chain_forge.Common.{List, [], ◌∷◌, none, some, length}
use chain_forge.Common.Bytes.{bytes_eq}
use chain_forge.Common.Sorting.{text_lt, insert_by, sort_by}
use chain_forge.Intent.Text.{decimal_text, decimal_before}
use chain_forge.Webhook.{
  Registration, Env, Dispatcher, post, attempt, deliver_to, deliver, accepted, sign, hex, hex_digit,
}
use chain_forge.Webhook.Delivery.{count}
use chain_forge.Webhook.Registry.{
  Net, empty, padded, id_of, without, has, is_internal, is_allowed, validate, register, remove,
  list, deliver_listed, run,
}
use chain_forge.Webhook.Registry.Listing.{Op, adds, deletes, after_op, after, live, list-live}
use chain_forge.Webhook.Registry.Delivered.{deliver_listed-counts}
use mathlib.Core.List.Perm

program : Unit {0}
unfolding empty padded id_of without has is_internal is_allowed validate register remove list
    deliver_listed run after_op after live bytes_eq text_lt insert_by sort_by decimal_text
    decimal_before str_eq post attempt deliver_to deliver accepted sign hex hex_digit count
program = tt

-- Every url is https to the host that it spells, and 10.0.0.1 is private.
abbrev net : Net
net = record {
  parse = λ raw. some (record { scheme = "https"; hostname = raw });
  equal_fold = str_eq;
  parse_ip = λ host.
      if str_eq host "10.0.0.1"
      then some (record {
        is_loopback = false;
        is_private = true;
        is_link_local = false;
        is_unspecified = false;
      })
      else none;
}

abbrev ops : List Op
ops =
    adds "a" (1 ∷ [])
    ∷ adds "10.0.0.1" []
    ∷ adds "b" []
    ∷ adds "localhost" []
    ∷ deletes (b'w' ∷ b'h' ∷ b'_' ∷ b'0' ∷ b'0' ∷ b'0' ∷ b'1' ∷ [])
    ∷ adds "c" []
    ∷ []

abbrev hook_2 : Registration
hook_2 = record { id = b'w' ∷ b'h' ∷ b'_' ∷ b'0' ∷ b'0' ∷ b'0' ∷ b'2' ∷ []; url = "b"; secret = [] }

abbrev hook_3 : Registration
hook_3 = record { id = b'w' ∷ b'h' ∷ b'_' ∷ b'0' ∷ b'0' ∷ b'0' ∷ b'3' ∷ []; url = "c"; secret = [] }

held : (after net (empty false) ops).regs ≡ hook_3 ∷ hook_2 ∷ []
unfolding program
held = refl

numbered : (after net (empty false) ops).seq ≡ 3
unfolding program
numbered = refl

lived : live net false ops 0 [] ≡ hook_2 ∷ hook_3 ∷ []
unfolding program
lived = refl

long_id : id_of 12345 ≡ b'w' ∷ b'h' ∷ b'_' ∷ b'1' ∷ b'2' ∷ b'3' ∷ b'4' ∷ b'5' ∷ []
unfolding program
long_id = refl

-- Behind 9999 the order of the texts is no longer that of the numbers.
late_order : text_lt (id_of 10000) (id_of 9999) ≡ true
unfolding program
late_order = refl

removed_once : (remove (after net (empty false) ops) hook_2.id).0 ≡ true
unfolding program
removed_once = refl

bounded : (after net (empty false) ops).seq < 10000
bounded = rw numbered (omega arith)

list-live_example : list (after net (empty false) ops).regs ≡ live net false ops 0 []
list-live_example = list-live net false ops (after net (empty false) ops).regs bounded Perm.rfl

-- The endpoint c accepts every post, the others none; the world counts the posts.
abbrev env : Env ℕ
env = record {
  hmac = λ secret body. secret;
  new_request = λ url body. true;
  do_post = λ req w. (if str_eq req.url "c" then some 204 else none, w + 1);
  sleep = λ d w. w;
}

abbrev is_c : Registration → Bool
is_c r = str_eq r.url "c"

c_answers : (r : Registration) (w : ℕ) → is_c r ≡ true → (post env r "e" [] w).0 ≡ true
unfolding post accepted
c_answers r w e = rw e refl

abbrev twice : Dispatcher
twice = record { attempts = 2; backoff = 100 }

posts : run env twice (hook_3 ∷ hook_2 ∷ []) (("e", []) ∷ ("f", []) ∷ []) 0 ≡ 6
unfolding program
posts = refl

deliver_listed-counts_example :
    let done = deliver_listed env twice (after net (empty false) ops).regs "e" [] 0 in
    (done.0 + done.1 ≡ length (live net false ops 0 []))
    × (count is_c (live net false ops 0 []) ≤ done.0)
deliver_listed-counts_example =
    deliver_listed-counts env twice "e" [] net false ops (after net (empty false) ops).regs 0 is_c
      bounded Perm.rfl c_answers (omega arith)

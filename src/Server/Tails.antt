-- ===== src/Server/Tails.antt =====
-- provider/routes.go: the paths and patterns of the routes that its three functions register.
use Prim.Native.String as Text
use text.Mathlib.TextLemmas.{cons-append, nil-append, append-nil}
use managed_services_lib.Common.{
  String, ◌≡◌, ◌≢◌, some, arith, eq_iff, refl, sym, ap, ◌∙◌, true, List, [], ◌∷◌,
}
use managed_services_lib.Server.Paths.{
  tail_segments, extend, segments, is_segment, is_tail, segments-append, match_tail, match_segments,
}

pub data Endpoint : Type 0 where
  list_services create_service update_service delete_service : Endpoint
  put_backup poll_backup drop_backup : Endpoint
  maintain_service : Endpoint

abbrev pub method_of : Endpoint → String
method_of list_services = "GET"
method_of create_service = "POST"
method_of update_service = "PATCH"
method_of delete_service = "DELETE"
method_of put_backup = "PUT"
method_of poll_backup = "POST"
method_of drop_backup = "DELETE"
method_of maintain_service = "POST"

-- The path under the provider's group; the first two endpoints have no id.
abbrev pub tail_of : Endpoint → String → String
tail_of list_services id = ""
tail_of create_service id = ""
tail_of update_service id = Text.◌++◌ "/" id
tail_of delete_service id = Text.◌++◌ "/" id
tail_of put_backup id = Text.◌++◌ "/backups" (Text.◌++◌ "/" id)
tail_of poll_backup id = Text.◌++◌ "/backups" (Text.◌++◌ "/" (Text.◌++◌ id "/status"))
tail_of drop_backup id = Text.◌++◌ "/backups" (Text.◌++◌ "/" id)
tail_of maintain_service id = Text.◌++◌ "/" (Text.◌++◌ id "/maintenance")

slash : (s : String) → segments (Text.◌++◌ "/" s) ≡ "" ∷ segments s
unfolding segments
slash s = rw (cons-append "/" "" s, nil-append s) refl

is_tail_slash : (s : String) → is_tail (Text.◌++◌ "/" s) ≡ true
is_tail_slash s = rw (cons-append "/" "" s) refl

backups_slash :
    (s : String) → segments (Text.◌++◌ "/backups" (Text.◌++◌ "/" s)) ≡ "" ∷ "backups" ∷ segments s
unfolding segments
backups_slash s =
    let more : segments (Text.◌++◌ "backups" (Text.◌++◌ "/" s)) ≡ "backups" ∷ segments s =
      segments-append "backups" (Text.◌++◌ "/" s) refl (is_tail_slash s)
      ∙ ap (λ x. "backups" ∷ tail_segments x) (slash s) in
    rw (cons-append "/" "backups" (Text.◌++◌ "/" s)) (ap (◌∷◌ "") more)

segments_id : (id : String) → is_segment id ≡ true → segments id ≡ id ∷ []
segments_id id h =
    ap segments (sym (append-nil id)) ∙ segments-append id "" h refl ∙ unfold segments in refl

segments_then :
    (id t : String)
    → is_segment id ≡ true
    → segments (Text.◌++◌ id (Text.◌++◌ "/" t)) ≡ id ∷ segments t
segments_then id t h =
    segments-append id (Text.◌++◌ "/" t) h (is_tail_slash t)
    ∙ ap (λ x. id ∷ tail_segments x) (slash t)

-- The segments of each endpoint's tail.
abbrev pub spelled : Endpoint → String → List String
spelled list_services id = "" ∷ []
spelled create_service id = "" ∷ []
spelled update_service id = "" ∷ id ∷ []
spelled delete_service id = "" ∷ id ∷ []
spelled put_backup id = "" ∷ "backups" ∷ id ∷ []
spelled poll_backup id = "" ∷ "backups" ∷ id ∷ "status" ∷ []
spelled drop_backup id = "" ∷ "backups" ∷ id ∷ []
spelled maintain_service id = "" ∷ id ∷ "maintenance" ∷ []

pub segments-tail_of :
    (e : Endpoint) (id : String) → is_segment id ≡ true → segments (tail_of e id) ≡ spelled e id
unfolding segments extend
segments-tail_of list_services id h = refl
segments-tail_of create_service id h = refl
segments-tail_of update_service id h = slash id ∙ ap (◌∷◌ "") (segments_id id h)
segments-tail_of delete_service id h = slash id ∙ ap (◌∷◌ "") (segments_id id h)
segments-tail_of put_backup id h =
    backups_slash id ∙ ap (λ x. "" ∷ "backups" ∷ x) (segments_id id h)
segments-tail_of drop_backup id h =
    backups_slash id ∙ ap (λ x. "" ∷ "backups" ∷ x) (segments_id id h)
segments-tail_of poll_backup id h =
    backups_slash (Text.◌++◌ id "/status")
    ∙ ap (λ x. "" ∷ "backups" ∷ x) (segments-append id "/status" h refl)
segments-tail_of maintain_service id h =
    slash (Text.◌++◌ id "/maintenance") ∙ ap (◌∷◌ "") (segments-append id "/maintenance" h refl)

pub is_tail-tail_of : (e : Endpoint) (id : String) → is_tail (tail_of e id) ≡ true
is_tail-tail_of list_services id = refl
is_tail-tail_of create_service id = refl
is_tail-tail_of update_service id = is_tail_slash id
is_tail-tail_of delete_service id = is_tail_slash id
is_tail-tail_of put_backup id = rw (cons-append "/" "backups" (Text.◌++◌ "/" id)) refl
is_tail-tail_of poll_backup id =
    rw (cons-append "/" "backups" (Text.◌++◌ "/" (Text.◌++◌ id "/status"))) refl
is_tail-tail_of drop_backup id = rw (cons-append "/" "backups" (Text.◌++◌ "/" id)) refl
is_tail-tail_of maintain_service id = is_tail_slash (Text.◌++◌ id "/maintenance")

-- The patterns that the three functions mount, and their order.
abbrev pub pattern_of : Endpoint → String
pattern_of list_services = ""
pattern_of create_service = ""
pattern_of update_service = "/:id"
pattern_of delete_service = "/:id"
pattern_of put_backup = "/backups/:id"
pattern_of poll_backup = "/backups/:id/status"
pattern_of drop_backup = "/backups/:id"
pattern_of maintain_service = "/:id/maintenance"

abbrev pub before : Endpoint → List Endpoint
before list_services = []
before create_service = list_services ∷ []
before update_service = list_services ∷ create_service ∷ []
before delete_service = list_services ∷ create_service ∷ update_service ∷ []
before put_backup = list_services ∷ create_service ∷ update_service ∷ delete_service ∷ []
before poll_backup =
    list_services ∷ create_service ∷ update_service ∷ delete_service ∷ put_backup ∷ []
before drop_backup =
    list_services ∷ create_service ∷ update_service ∷ delete_service ∷ put_backup ∷ poll_backup ∷ []
before maintain_service =
    list_services ∷ create_service ∷ update_service ∷ delete_service ∷ put_backup ∷ poll_backup
    ∷ drop_backup ∷ []

abbrev pub after : Endpoint → List Endpoint
after list_services =
    create_service ∷ update_service ∷ delete_service ∷ put_backup ∷ poll_backup ∷ drop_backup
    ∷ maintain_service ∷ []
after create_service =
    update_service ∷ delete_service ∷ put_backup ∷ poll_backup ∷ drop_backup ∷ maintain_service ∷ []
after update_service =
    delete_service ∷ put_backup ∷ poll_backup ∷ drop_backup ∷ maintain_service ∷ []
after delete_service = put_backup ∷ poll_backup ∷ drop_backup ∷ maintain_service ∷ []
after put_backup = poll_backup ∷ drop_backup ∷ maintain_service ∷ []
after poll_backup = drop_backup ∷ maintain_service ∷ []
after drop_backup = maintain_service ∷ []
after maintain_service = []

-- The id that a route hands on: that of the path, or none.
abbrev pub id_of : Endpoint → String → String
id_of list_services id = ""
id_of create_service id = ""
id_of e id = id

pub is_tail-pattern_of : (e : Endpoint) → is_tail (pattern_of e) ≡ true
is_tail-pattern_of list_services = refl
is_tail-pattern_of create_service = refl
is_tail-pattern_of update_service = refl
is_tail-pattern_of delete_service = refl
is_tail-pattern_of put_backup = refl
is_tail-pattern_of poll_backup = refl
is_tail-pattern_of drop_backup = refl
is_tail-pattern_of maintain_service = refl

pub match_tail-tail_of :
    (e : Endpoint) (id p : String)
    → is_segment id ≡ true
    → match_tail p (tail_of e id)
      ≡ match_segments (tail_segments (segments p)) (tail_segments (spelled e id))
match_tail-tail_of e id p h =
    ap (λ x. match_segments (tail_segments (segments p)) (tail_segments x))
      (segments-tail_of e id h)

pub fits :
    (e : Endpoint) (id : String)
    → is_segment id ≡ true
    → id ≢ ""
    → match_tail (pattern_of e) (tail_of e id) ≡ some (id_of e id)
unfolding segments extend match_segments
fits list_services id h named = refl
fits create_service id h named = refl
fits update_service id h named =
    match_tail-tail_of update_service id "/:id" h ∙ ground (arith, eq_iff id "", named)
fits delete_service id h named =
    match_tail-tail_of delete_service id "/:id" h ∙ ground (arith, eq_iff id "", named)
fits put_backup id h named =
    match_tail-tail_of put_backup id "/backups/:id" h ∙ ground (arith, eq_iff id "", named)
fits poll_backup id h named =
    match_tail-tail_of poll_backup id "/backups/:id/status" h ∙ ground (arith, eq_iff id "", named)
fits drop_backup id h named =
    match_tail-tail_of drop_backup id "/backups/:id" h ∙ ground (arith, eq_iff id "", named)
fits maintain_service id h named =
    match_tail-tail_of maintain_service id "/:id/maintenance" h
    ∙ ground (arith, eq_iff id "", named)

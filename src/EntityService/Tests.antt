-- ===== src/EntityService/Tests.antt =====
-- Runs of the entity service, and its theorems at concrete inputs.
use hpa_with_bmad.Base.{
  ℕ, String, true, false, some, List, [], ◌∷◌, ◌≡◌, ◌≢◌, refl, arith, lookup, string_eq, eq_iff,
  starts_with, strip_prefix,
}
use hpa_with_bmad.Json.{Value, Fields, end, field, str, obj}
use hpa_with_bmad.Json.Key.{Key, text_key, key_eq}
use hpa_with_bmad.Http.{Request, document}
use hpa_with_bmad.Regex.{search_group}
use hpa_with_bmad.EntityService.{
  StoredDoc, EntityStore, Stores, region_of, store_of, auth_ok, requester_tenant, can_access,
}
use hpa_with_bmad.EntityService.Service.{
  Method, get_method, put_method, post_method, delete_method, handle,
}
use hpa_with_bmad.EntityService.Isolation.{regions_isolated, tenants_isolated}

-- A stand-in for the MD5 of a revision.
abbrev digest : Value → ℕ → String
digest id n = "0"

abbrev request : String → String → Request
request path token = record {
  path = path;
  query = [];
  headers = ("Authorization", token) ∷ ("X-Hpdc-Region", "region-1") ∷ [];
  body = document (obj end);
}

abbrev acme : Request
acme = request "/data/d1" "Bearer tenant=acme"

abbrev globex : Request
globex = request "/data/d1" "Bearer tenant=globex"

abbrev stored : StoredDoc
stored = record { doc = ("id", str "d1") ∷ []; revision = 1; rev = "1-0"; tenant = str "acme" }

abbrev one_doc : EntityStore
one_doc = record { documents = (text_key "d1", stored) ∷ []; domain_events = [] }

abbrev stores : Stores
stores = ("region-1", one_doc) ∷ []

globex_may_not : can_access (requester_tenant globex) stored ≡ false
unfolding can_access requester_tenant lookup search_group strip_prefix
globex_may_not = refl

globex_in : auth_ok globex ≡ true
unfolding auth_ok lookup search_group strip_prefix starts_with
globex_in = refl

abbrev patch : Fields
patch = field "_rev" (str "1-0") (field "name" (str "pump") end)

-- A read and another update.
abbrev between : List (Method × Request)
between = (get_method, acme) ∷ (put_method, acme) ∷ []

other_region_name : "region-2" ≢ region_of acme
unfolding region_of lookup
other_region_name = ground (arith, eq_iff "region-2" "region-1")

not_post : delete_method ≢ post_method
not_post = λ e. cc

regions_isolated_example :
    lookup "region-2" (handle digest delete_method acme stores).1 ≡ lookup "region-2" stores
regions_isolated_example =
    regions_isolated digest delete_method acme stores "region-2" other_region_name

tenants_isolated_example :
    lookup (text_key "d1") (store_of globex (handle digest delete_method globex stores).1).documents
    ≡ some stored
tenants_isolated_example =
    tenants_isolated digest delete_method globex stores (text_key "d1") stored not_post
      (unfold store_of region_of lookup in refl) globex_may_not

abbrev same_id : Fields
same_id = field "id" (str "d1") end

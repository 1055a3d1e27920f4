-- ===== src/Api/Nested/Defs.antt =====
-- Creating, appending and removing through a nested view, and the call of its action. The database, the
-- serializer, the manager of the relation and the permissions are parameters, whose steps may raise.
use vstutils.Base.{
  Bool, true, false, not, ◌||◌, List, [], ◌∷◌, ◌++◌, map, Option, none, some, if◌then◌else◌, ◌==◌,
  text_eq, any, keep, Eq, Assoc, insert,
}
use vstutils.Base.Text.{Text, codes}
use vstutils.Api.Run.{Outcome, ok, raised, Run, ◌>>=◌, ◌>>◌, return, in_transaction, lift, each}
use vstutils.Api.Nested.Names.{get_action_name}

-- What the manager tells by its attributes: the `field` of a foreign key with the parent, the two fields
-- of a content type, or neither.
pub data Manager (V : Type 0) : Type 0 where
  by_field : (name : Text) → (instance : V) → Manager V
  by_content_type :
      (content_type_field_name : Text)
      → (content_type : V) → (object_id_field_name : Text) → (instance_id : V) → Manager V
  other : Manager V

-- Over the request's values `D`, the validated values `V`, the objects `O` with their keys `K`, and the
-- answers `R`
pub record Parts (S E D V O K R : Type 0) : Type 0 where
  -- the value, if it is a str or bytes, and `orjson.loads`
  pub as_text : D → Option Text
  pub loads : Text → Outcome E D
  -- the value, if it is a list or a tuple
  pub as_list : D → Option (List D)
  -- `data.get(nested_append_arg)`
  pub get : D → Outcome E (Option V)
  -- the field of the serializer that stands for the key, by its `to_representation`
  pub handler : Outcome E (Option V → Outcome E K)
  pub manager : Manager V
  pub find : List (Option V) → Run S E (List O)
  pub check_object_permissions : O → Run S E (Unit {0})
  -- the validated data of the serializer of a value
  pub get_valid : D → Run S E (Assoc Text V)
  pub perform_create : Assoc Text V → Run S E O
  pub add : List O → Run S E (Unit {0})
  pub remove : O → Run S E (Unit {0})
  pub delete : O → Run S E (Unit {0})
  -- the attribute `pk`, and the one that `nested_append_arg` names
  pub pk : O → K
  pub append_value : O → K
  pub notify_clients : List O → Run S E (Unit {0})
  pub notify_parent : Run S E (Unit {0})
  -- `self.get_queryset().filter(..)` with the keys, and what is answered with some objects
  pub select : List K → Run S E (List O)
  pub does_not_exist : E
  pub multiple_objects_returned : E
  pub respond : (many : Bool) → List O → Run S E R
  -- `check_permissions`, `check_throttles` and `check_etag` of the request
  pub check_permissions : Run S E (Unit {0})
  pub check_throttles : Run S E (Unit {0})
  pub check_etag : Run S E (Unit {0})
  -- the method of the view with this name, with the id of the nested object or without it
  pub call : Option Text → (with_id : Bool) → Run S E R
  pub finalize_response : R → Run S E R

module _ {S E D V O K R : Type 0} ⦃k : Eq K⦄ (p : Parts S E D V O K R) where
  unfoldable pub ensure_is_object : D → Outcome E D
  ensure_is_object d = elim (p.as_text d) [ none ↦ ok d | some t ↦ p.loads t ]

  unfoldable pub create_by : Manager V → D → Run S E O
  create_by (by_field name instance) d =
      p.get_valid d >>= λ v. p.perform_create (insert name instance v)
  create_by (by_content_type ct_name ct id_name id) d =
      p.get_valid d >>= λ v. p.perform_create (insert id_name id (insert ct_name ct v))
  create_by other d = p.get_valid d >>= λ v.
      in_transaction (p.perform_create v >>= λ o. (p.add (o ∷ []) >> return o))

  -- `_create_with_iteration`
  unfoldable pub create_with_iteration : D → Run S E O
  unfolding create_by
  create_with_iteration d = create_by p.manager d

  -- `_data_create` of `NestedWithoutAppendMixin`
  unfoldable pub data_create : List D → Run S E (List K)
  unfolding create_with_iteration
  data_create items = each (λ d. create_with_iteration d >>= λ o. return (p.append_value o)) items

  abbrev pub is_listed : Outcome E K → List K → Bool
  is_listed (ok key) ids = any (λ i. i == key) ids
  is_listed (raised e) ids = false

  abbrev pub represented : (Option V → Outcome E K) → Outcome E (Option V) → Outcome E K
  represented handler (ok v) = handler v
  represented handler (raised e) = raised e

  -- `is_not_created`, where a value that raises is as one that is not listed
  unfoldable pub is_not_created : (Option V → Outcome E K) → List K → D → Bool
  is_not_created handler ids d = not (is_listed (represented handler (p.get d)) ids)

  abbrev pub ensure : D → Run S E D
  ensure d = lift (ensure_is_object d)

  abbrev pub key_of : D → Run S E (Option V)
  key_of d = lift (p.get d)

  -- What follows, once the objects are found
  unfoldable pub append_found : List D → List O → Run S E (List K)
  unfolding data_create is_not_created each
  append_found ds objects = do
    checked ← each p.check_object_permissions objects
    p.add objects
    handler ← lift p.handler
    created ← data_create (keep (is_not_created handler (map p.pk objects)) ds)
    p.notify_clients objects
    return (map p.pk objects ++ created)

  -- `_data_create` of `NestedWithAppendMixin`
  unfoldable pub append_create : List D → Run S E (List K)
  unfolding ensure_is_object append_found each
  append_create items = do
    ds ← each ensure items
    keys ← each key_of ds
    objects ← p.find keys
    append_found ds objects

  abbrev pub get_one : List O → Outcome E (List O)
  get_one [] = raised p.does_not_exist
  get_one (o ∷ []) = ok (o ∷ [])
  get_one (o ∷ o' ∷ os) = raised p.multiple_objects_returned

  -- `perform_create_nested`, after `prepare_request_data`
  unfoldable pub perform_create_nested : (allow_append : Bool) → List D → (many : Bool) → Run S E R
  unfolding append_create data_create
  perform_create_nested allow_append items many = do
    ids ← (if allow_append then append_create items else data_create items)
    objects ← p.select ids
    shown ← (if many then return objects else lift (get_one objects))
    p.respond many shown

  -- `create`
  unfoldable pub create : (allow_append : Bool) → D → Run S E R
  unfolding perform_create_nested
  create allow_append d = elim (p.as_list d) [
    | some items ↦ perform_create_nested allow_append items true
    | none ↦ perform_create_nested allow_append (d ∷ []) false
  ]

  abbrev pub purge_nested : Option Text → Bool
  purge_nested none = false
  purge_nested (some header) = header == codes "true"

  -- `perform_destroy`, given the header X-Purge-Nested
  unfoldable pub perform_destroy : (allow_append : Bool) → Option Text → O → Run S E (Unit {0})
  perform_destroy allow_append header o =
      (if allow_append
        then (p.remove o >> (p.notify_clients (o ∷ []) >> p.notify_parent))
        else return tt)
      >> (if not allow_append || purge_nested header then p.delete o else return tt)

  abbrev pub is_list_action : Option Text → Bool
  is_list_action none = false
  is_list_action (some action) = action == codes "list"

  -- The action of `dispatch_route`; a `nested_sub` that is empty is as none.
  abbrev pub action_of : (nested_sub : Text) → (nested_detail : Bool) → Text → Option Text
  action_of [] nested_detail method = get_action_name nested_detail method
  action_of (c ∷ sub) nested_detail method = some (c ∷ sub)

  -- `dispatch_route`
  unfoldable pub dispatch_route :
      (is_main_action : Bool)
      → (nested_sub : Text) → (nested_detail : Bool) → (method : Text) → Run S E R
  unfolding get_action_name
  dispatch_route main nested_sub nested_detail method =
      let action = action_of nested_sub nested_detail method in
      in_transaction (
        p.check_permissions
        >> (p.check_throttles
            >> ((if main then p.check_etag else return tt)
                >> (p.call action (not (is_list_action action)) >>= p.finalize_response))))

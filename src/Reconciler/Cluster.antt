-- ===== src/Reconciler/Cluster.antt =====
-- What the reconciler calls: the API server, whose state is a type, and the functions of manifests.go,
-- which are an interface of their own. Objects have the fields that the code reads.
use workbenches_operator.Prelude.{ℕ, String, Bool, Option, none, List}
use workbenches_operator.Json.{ℤ}
use workbenches_operator.Errors.{Error, Result}
use workbenches_operator.Dict.{StringMap}
use workbenches_operator.Api.{Workbenches, ComponentRelease}

-- appsv1.Deployment
pub record Deployment : Type 0 where
  pub name : String
  pub namespace : String
  pub labels : StringMap
  pub generation : ℤ
  -- spec.replicas
  pub spec_replicas : Option ℤ
  -- the annotations of the pod template
  pub template_annotations : StringMap
  -- status
  pub observed_generation : ℤ
  pub replicas : ℤ
  pub updated_replicas : ℤ
  pub ready_replicas : ℤ
  pub available_replicas : ℤ

-- A condition of an image stream's tag: whether its type is ImportSuccess, and whether it is False.
pub record TagCondition : Type 0 where
  pub is_import_success : Bool
  pub is_false : Bool
  pub message : String

pub record TagStatus : Type 0 where
  pub tag : String
  pub item_count : ℕ
  pub conditions : List TagCondition

pub record ImageStream : Type 0 where
  pub name : String
  pub tags : List TagStatus

-- The answer to listing image streams: the API may be missing.
pub data ImageStreamList : Type 0 where
  no_api : ImageStreamList
  list_error : Error → ImageStreamList
  listed : List ImageStream → ImageStreamList

pub record Cluster (S : Type 0) : Type 0 where
  pub get_workbenches : S → String → Result Workbenches
  -- An update answers with the stored object, which the code reads on with.
  pub update_workbenches : S → Workbenches → S × Result Workbenches
  pub update_status : S → Workbenches → S × Result Workbenches
  -- the data of a ConfigMap, by namespace and name
  pub get_config_map : S → String → String → Result (Option StringMap)
  -- the labels of a namespace, `none` where they are nil
  pub get_namespace : S → String → Result (Option StringMap)
  pub create_namespace : S → String → StringMap → S × Result (Unit {0})
  pub update_namespace : S → String → StringMap → S × Result (Unit {0})
  -- the deployments of a namespace with the component's label
  pub list_deployments : S → String → Result (List Deployment)
  -- the image streams of a namespace that are part of the component
  pub list_image_streams : S → String → ImageStreamList

-- manifests.go and releases.go: the rendering with its parameters, the clean-up of a namespace, whether
-- the manifests of workbenches-v2 are in the image, and the releases of the image.
pub record Operands (S : Type 0) : Type 0 where
  pub render_and_apply : S → Workbenches → StringMap → String → String → S × Result (Unit {0})
  pub cleanup_managed_resources : S → String → S × Result (Unit {0})
  pub workbenches_v2_manifests_exist : S → Bool
  pub collect_workbenches_releases : Result (List ComponentRelease)

-- ctrl.Result with the error: the milliseconds after which the request is tried again, 0 for none.
pub record Outcome : Type 0 where
  pub requeue_after : ℕ
  pub error : Option Error

abbrev pub requeue_delay : ℕ
requeue_delay = 30000

abbrev pub done : Outcome
done = record { requeue_after = 0; error = none }

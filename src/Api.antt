-- ===== src/Api.antt =====
-- api/v1alpha1: the custom resources, with the fields that the modelled code reads or writes.
-- `omitempty` pointers are options; an object's metadata (name, namespace, generation) stands
-- beside its spec and status. A number that the API server bounds from below by 0 or 1 is a
-- natural number, one that it does not bound is an integer.
pub mod Agent
pub mod Resources

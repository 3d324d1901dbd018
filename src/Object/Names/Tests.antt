-- ===== src/Object/Names/Tests.antt =====
-- The name of an object type.
use git_internal.Object.Types.{run}
use git_internal.Object.Names.RoundTrip.{Named, ObjectType-Named}

ObjectType-Named_example : Named run
ObjectType-Named_example = ObjectType-Named run

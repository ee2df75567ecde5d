-- ===== src/Classes.antt =====
-- Classes and categories: class_usecase.go, class_creation_usecase.go, category_usecase.go,
-- class_repository.go, category_repository.go, class_creation_store.go and class_teacher_repository.go
-- of internal.
pub mod Rows
pub mod Store
pub mod Categories
pub mod Changes
pub mod Payload
pub mod Creation
pub mod Limits
pub mod Deletion
